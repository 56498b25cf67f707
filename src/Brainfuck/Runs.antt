-- ===== src/Brainfuck/Runs.antt =====
-- What a Brainfuck program does to its cells, as a relation, and that `step_code` of
-- apps/brainfuck/main.c does it.
use bitloader.Prelude.{
  Bool, List, Option, [], append_assoc, arith, false, if◌then◌else◌, ltb, ltb→lt, none, refl, some,
  true, ℕ, ◌++◌, ◌+◌, ◌-◌, ◌<◌, ◌==◌, ◌∷◌, ◌≡◌, ◌≢◌,
}
use bitloader.Prelude.Int.{pos}
use bitloader.Prelude.Words.{add32, add8, sub32, sub8}
use bitloader.Brainfuck.{
  CodeExecutionData, StepOutcome, advance, expect_input, memory_size, set_cell, step_char,
  step_code, unfinished,
}
use bitloader.Brainfuck.Program.{Program, end, then_char, then_loop}

-- The cells and the pointer.
pub record Tape : Type 0 where
  pub cells : ℕ → ℕ
  pub at : ℕ

abbrev pub put : ℕ → Tape → Tape
put v t = record t { cells = λ j. if j == t.at then v else t.cells j }

-- One command, for what was typed and what it prints; none where the pointer leaves the cells.
abbrev pub command : ℕ → List ℕ → Tape → Option (Tape × List ℕ)
command c typed t =
    if c == b'+'
    then some (put (add8 (t.cells t.at) 1) t, [])
    else if c == b'-'
    then some (put (sub8 (t.cells t.at) 1) t, [])
    else if c == b'>'
    then (if ltb (t.at + 1) memory_size then some (record t { at = t.at + 1 }, []) else none)
    else if c == b'<'
    then (if ltb 0 t.at then some (record t { at = t.at - 1 }, []) else none)
    else if c == b'.'
    then some (t, t.cells t.at ∷ [])
    else if c == b','
    then elim typed [ [] ↦ none | v ∷ vs ↦ some (put v t, []) ]
    else some (t, [])

-- What a command takes of the keys that are typed: nothing, or one.
pub data Typed : List ℕ → Option ℕ → Type 0 where
  no_key : Typed [] none
  a_key : {v : ℕ} → Typed (v ∷ []) (some v)

-- A program's run from a tape to a tape, with the keys it reads and the bytes it prints.
pub data Runs : Program → Tape → List ℕ → List ℕ → Tape → Type 0 where
  at_end : {t : Tape} → Runs end t [] [] t
  one_char :
      {c : ℕ} {p : Program} {t t' t'' : Tape} {key keys out outs : List ℕ} {input : Option ℕ}
      → Typed key input
      → command c key t ≡ some (t', out)
      → Runs p t' keys outs t''
      → Runs (then_char c p) t (key ++ keys) (out ++ outs) t''
  loop_left :
      {b p : Program} {t t' : Tape} {keys outs : List ℕ}
      → t.cells t.at ≡ 0
      → Runs p t keys outs t'
      → Runs (then_loop b p) t keys outs t'
  loop_entered :
      {b p : Program} {t t' t'' : Tape} {keys keys' outs outs' : List ℕ}
      → t.cells t.at ≢ 0
      → Runs b t keys outs t'
      → Runs (then_loop b p) t' keys' outs' t''
      → Runs (then_loop b p) t (keys ++ keys') (outs ++ outs') t''

-- The interpreter's data at an offset of the code, with a tape.
abbrev pub machine : (ℕ → ℕ) → ℕ → ℕ → Tape → CodeExecutionData
machine code code_len o t = record {
  memory = t.cells;
  mem_pos = t.at;
  code = code;
  code_len = code_len;
  current_code_offset = pos o;
}

-- Steps that all ask to be continued, with the keys given to them and the bytes printed.
pub data Steps : CodeExecutionData → List ℕ → List ℕ → CodeExecutionData → Type 0 where
  no_step : {d : CodeExecutionData} → Steps d [] [] d
  a_step :
      {d d' d'' : CodeExecutionData} {key keys out outs : List ℕ} {input : Option ℕ}
      → Typed key input
      → step_code d input ≡ (unfinished, d', out)
      → Steps d' keys outs d''
      → Steps d (key ++ keys) (out ++ outs) d''

pub Steps-trans :
    {d d' d'' : CodeExecutionData} {keys keys' outs outs' : List ℕ}
    → Steps d keys outs d'
    → Steps d' keys' outs' d''
    → Steps d (keys ++ keys') (outs ++ outs') d''
Steps-trans no_step s = s
Steps-trans {keys' = keys'} {outs' = outs'} (a_step {key = key} {keys} {out} {outs} k e r) s =
    rw (append_assoc key keys keys')
      (rw (append_assoc out outs outs') (a_step k e (Steps-trans r s)))

module _ (code : ℕ → ℕ) (code_len : ℕ) where
  -- The machine has moved on as the command says, where the command stays inside the cells.
  abbrev pub Stepped : ℕ → Option (Tape × List ℕ) → StepOutcome → Type 0
  Stepped o none r = Unit
  Stepped o (some (t', out)) r =
      (r ≡ (unfinished, machine code code_len (o + 1) t', out)) × (t'.at < memory_size)

  Stepped-if :
      (o : ℕ) (b : Bool) (x y : Option (Tape × List ℕ)) (r s : StepOutcome)
      → Stepped o x r
      → Stepped o y s
      → Stepped o (if b then x else y) (if b then r else s)
  Stepped-if o true x y r s hx hy = hx
  Stepped-if o false x y r s hx hy = hy

  Stepped-guard :
      (o : ℕ) (b : Bool) (t' : Tape) (out : List ℕ) (r : StepOutcome)
      → (b ≡ true → Stepped o (some (t', out)) r)
      → Stepped o (if b then some (t', out) else none) r
  Stepped-guard o true t' out r h = h refl
  Stepped-guard o false t' out r h = tt

  module _ (o : ℕ) (t : Tape) (room : t.at < memory_size) where
    right-Stepped :
        Stepped o
          (if ltb (t.at + 1) memory_size then some (record t { at = t.at + 1 }, []) else none)
          (advance (record (machine code code_len o t) { mem_pos = add32 t.at 1 }) [])
    right-Stepped =
        Stepped-guard o (ltb (t.at + 1) memory_size) (record t { at = t.at + 1 }) [] _
          (λ h.
            let same : add32 t.at 1 ≡ t.at + 1 = omega arith in
            rw same (refl, ltb→lt (t.at + 1) memory_size h))

    left-Stepped :
        Stepped o
          (if ltb 0 t.at then some (record t { at = t.at - 1 }, []) else none)
          (advance (record (machine code code_len o t) { mem_pos = sub32 t.at 1 }) [])
    left-Stepped =
        Stepped-guard o (ltb 0 t.at) (record t { at = t.at - 1 }) [] _
          (λ h.
            let up = ltb→lt 0 t.at h in
            let same : sub32 t.at 1 ≡ t.at - 1 = omega arith in rw same (refl, omega arith))

    input-Stepped :
        (key : List ℕ) (input : Option ℕ)
        → Typed key input
        → Stepped o
            (elim key [ [] ↦ none | v ∷ vs ↦ some (put v t, []) ])
            (elim input [
              | none ↦ (expect_input, machine code code_len o t, [])
              | some v ↦ advance (set_cell v (machine code code_len o t)) []
            ])
    input-Stepped key input no_key = tt
    input-Stepped key input (a_key {v}) =
        let off : (t.at == memory_size) ≡ false = ground arith in rw off (refl, room)

    pub step_char-Stepped :
        (c : ℕ) (key : List ℕ) (input : Option ℕ)
        → c ≢ b'['
        → c ≢ b']'
        → Typed key input
        → Stepped o (command c key t) (step_char o c input (machine code code_len o t))
    unfolding step_char
    step_char-Stepped c key input no_open no_close typed =
        let off : (t.at == memory_size) ≡ false = ground arith in
        let open_no : (c == b'[') ≡ false = ground arith in
        let close_no : (c == b']') ≡ false = ground arith in
        rw open_no (
          rw close_no (
            Stepped-if o (c == b'+') _ _ _ _ (rw off (refl, room)) (
              Stepped-if o (c == b'-') _ _ _ _ (rw off (refl, room)) (
                Stepped-if o (c == b'>') _ _ _ _ right-Stepped (
                  Stepped-if o (c == b'<') _ _ _ _ left-Stepped (
                    Stepped-if o (c == b'.') _ _ _ _ (rw off (refl, room)) (
                      Stepped-if o (c == b',') _ _ _ _ (input-Stepped key input typed)
                        (refl, room))))))))
