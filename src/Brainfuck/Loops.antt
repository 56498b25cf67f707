-- ===== src/Brainfuck/Loops.antt =====
-- `step_code` of apps/brainfuck/main.c runs a program: brackets, and whole programs.
use mathlib.Core.Path.{subst}
use bitloader.Prelude.{
  List, Option, [], arith, false, leb, length, length-append, ltb, none, refl, some, suc, ℕ, ◌+◌,
  ◌-◌, ◌<◌, ◌==◌, ◌∙◌, ◌∷◌, ◌≡◌, ◌≢◌, ◌≤◌,
}
use bitloader.Prelude.Int.{pos}
use bitloader.Brainfuck.{
  CodeExecutionData, cell, memory_size, scan_back, scan_forward, step_char, step_code, stopped_at,
  unfinished,
}
use bitloader.Brainfuck.Program.{
  LoopAt, Plain, Program, Reads, Reads-LoopAt, back_found, end, forward_found, scan_back-text,
  scan_forward-text, text, then_char, then_loop,
}
use bitloader.Brainfuck.Runs.{
  Runs, Stepped, Steps, Steps-trans, Tape, Typed, a_step, at_end, command, loop_entered, loop_left,
  machine, no_key, no_step, one_char, step_char-Stepped,
}

module _ (code : ℕ → ℕ) (code_len : ℕ) where
  one_step :
      (o : ℕ) (t : Tape) (input : Option ℕ)
      → o < code_len
      → t.at < memory_size
      → step_code (machine code code_len o t) input
        ≡ step_char o (code o) input (machine code code_len o t)
  unfolding step_code
  one_step o t input inside room =
      let in_code : leb code_len o ≡ false = ground arith in
      let in_cells : ltb memory_size t.at ≡ false = ground arith in rw in_code (rw in_cells refl)

  pub char-step :
      (o c : ℕ) (key out : List ℕ) (input : Option ℕ) (t t' : Tape)
      → code o ≡ c
      → c ≢ b'['
      → c ≢ b']'
      → o < code_len
      → t.at < memory_size
      → Typed key input
      → command c key t ≡ some (t', out)
      → (step_code (machine code code_len o t) input
          ≡ (unfinished, machine code code_len (o + 1) t', out))
        × (t'.at < memory_size)
  char-step o c key out input t t' here no_open no_close inside room typed h =
      let r =
        subst (λ e. Stepped code code_len o e (step_char o c input (machine code code_len o t))) h
          (step_char-Stepped code code_len o t room c key input no_open no_close typed) in
      (rw (one_step o t input inside room) (rw here r.0), r.1)

  module _ (big : 128 ≤ code_len) (o : ℕ) (b p : Program) (plain : Plain b) (l : LoopAt code o b p)
      (inside : o + 1 + length (text b) < code_len) (t : Tape) (room : t.at < memory_size) where
    at_cell : (v : ℕ) → t.cells t.at ≡ v → cell (machine code code_len o t) ≡ v
    at_cell v h = let off : (t.at == memory_size) ≡ false = ground arith in rw off h

    abbrev close : ℕ
    close = o + 1 + length (text b)

    forward_stops :
        scan_forward code code_len (code_len - (o + 1)) (o + 1) 0 ≡ stopped_at (pos close)
    forward_stops =
        scan_forward-text code code_len big (code_len - (o + 1)) (suc (code_len - close - 1))
          (o + 1) close 0 b plain l.body (omega arith) refl
        ∙ forward_found code code_len big (code_len - close - 1) close l.closes

    open_skips :
        t.cells t.at ≡ 0
        → step_code (machine code code_len o t) none
          ≡ (unfinished, machine code code_len (close + 1) t, [])
    unfolding step_char
    open_skips h =
        rw (one_step o t none (omega arith) room)
          (rw l.opens (rw (at_cell 0 h) (rw forward_stops refl)))

    open_enters :
        t.cells t.at ≢ 0
        → step_code (machine code code_len o t) none
          ≡ (unfinished, machine code code_len (o + 1) t, [])
    unfolding step_char
    open_enters h =
        let full : (cell (machine code code_len o t) == 0) ≡ false =
          let same = at_cell (t.cells t.at) refl in ground arith in
        rw (one_step o t none (omega arith) room) (rw l.opens (rw full refl))

    close_leaves :
        t.cells t.at ≡ 0
        → step_code (machine code code_len close t) none
          ≡ (unfinished, machine code code_len (close + 1) t, [])
    unfolding step_char
    close_leaves h = rw (one_step close t none inside room) (rw l.closes (rw (at_cell 0 h) refl))

    back_stops : scan_back code close 0 ≡ stopped_at (pos o)
    back_stops = scan_back-text code (o + 1) close 0 b plain l.body refl ∙ back_found code o l.opens

    close_repeats :
        t.cells t.at ≢ 0
        → step_code (machine code code_len close t) none
          ≡ (unfinished, machine code code_len (o + 1) t, [])
    unfolding step_char
    close_repeats h =
        let full : (cell (machine code code_len close t) == 0) ≡ false =
          let same = at_cell (t.cells t.at) refl in ground arith in
        rw (one_step close t none inside room) (rw l.closes (rw full (rw back_stops refl)))

  -- From the closing bracket of a loop the machine goes on as from its opening one.
  abbrev pub FromClose : Program → ℕ → Tape → List ℕ → List ℕ → Tape → Type 0
  FromClose end o t keys outs t' = Unit
  FromClose (then_char c p) o t keys outs t' = Unit
  FromClose (then_loop b p) o t keys outs t' =
      Steps (machine code code_len (o + 1 + length (text b)) t) keys outs
        (machine code code_len (o + length (text (then_loop b p))) t')

  pub record Done (p : Program) (o : ℕ) (t : Tape) (keys outs : List ℕ) (t' : Tape) : Type 0 where
    pub steps :
        Steps (machine code code_len o t) keys outs (machine code code_len (o + length (text p)) t')
    pub from_close : FromClose p o t keys outs t'
    pub room : t'.at < memory_size

  pub Steps-to :
      {d : CodeExecutionData} {keys outs : List ℕ} {t : Tape} (o o' : ℕ)
      → o ≡ o'
      → Steps d keys outs (machine code code_len o t)
      → Steps d keys outs (machine code code_len o' t)
  Steps-to {d} {keys} {outs} {t} o o' e s =
      subst (λ i. Steps d keys outs (machine code code_len i t)) e s

  pub text-Done :
      128 ≤ code_len
      → (p : Program) (o : ℕ) (t : Tape) (keys outs : List ℕ) (t' : Tape) → Runs p t keys outs t'
      → Plain p
      → Reads code o (text p)
      → o + length (text p) ≤ code_len
      → t.at < memory_size
      → Done p o t keys outs t'
  text-Done big end o t keys outs t' at_end plain reads inside room = record {
    steps = Steps-to o (o + 0) (omega arith) no_step;
    from_close = tt;
    room = room;
  }
  text-Done big (then_char c p) o t keys outs t''
        (one_char {t' = t'} {key = key} {keys = keys'} {out} {outs = outs'} {input} k h r) plain
        reads inside room =
      let s = char-step o c key out input t t' reads.0 plain.1 plain.2 (omega arith) room k h in
      let d = text-Done big p (o + 1) t' keys' outs' t'' r plain.3 reads.1 (omega arith) s.1 in
      record {
        steps =
            Steps-to (o + 1 + length (text p)) (o + length (text (then_char c p))) (omega arith)
              (a_step k s.0 d.steps);
        from_close = tt;
        room = d.room;
      }
  text-Done big (then_loop b p) o t keys outs t' (loop_left h r) plain reads inside room =
      let l = Reads-LoopAt code o b p reads in
      let size = length-append (text b) (b']' ∷ text p) in
      let close = o + 1 + length (text b) in
      let in_code : close < code_len = omega (arith, inside, size) in
      let ends : close + 1 + length (text p) ≡ o + length (text (then_loop b p)) =
        omega (arith, size) in
      let d =
        text-Done big p (close + 1) t keys outs t' r plain.1 l.rest (omega (arith, inside, size))
          room in
      record {
        steps =
            Steps-to _ _ ends
              (a_step no_key (open_skips big o b p plain.0 l in_code t room h) d.steps);
        from_close =
            Steps-to _ _ ends
              (a_step no_key (close_leaves big o b p plain.0 l in_code t room h) d.steps);
        room = d.room;
      }
  text-Done big (then_loop b p) o t keys outs t''
        (loop_entered {t' = t'} {keys = keys0} {keys' = keys1} {outs = outs0} {outs' = outs1} h r
          r')
        plain reads inside room =
      let l = Reads-LoopAt code o b p reads in
      let size = length-append (text b) (b']' ∷ text p) in
      let in_code : o + 1 + length (text b) < code_len = omega (arith, inside, size) in
      let d =
        text-Done big b (o + 1) t keys0 outs0 t' r plain.0 l.body (omega (arith, inside, size))
          room in
      let d' = text-Done big (then_loop b p) o t' keys1 outs1 t'' r' plain reads inside d.room in
      let round = Steps-trans d.steps d'.from_close in
      record {
        steps = a_step no_key (open_enters big o b p plain.0 l in_code t room h) round;
        from_close = a_step no_key (close_repeats big o b p plain.0 l in_code t room h) round;
        room = d'.room;
      }
