-- ===== src/Brainfuck/Program.antt =====
-- Programs with matched brackets, their text, and the search for a bracket in it.
use mathlib.Core.Path.{subst}
use bitloader.Prelude.{
  List, [], arith, length, length-append, refl, suc, ℕ, ◌++◌, ◌+◌, ◌<◌, ◌∙◌, ◌∷◌, ◌≡◌, ◌≢◌, ◌≤◌,
}
use bitloader.Brainfuck.{scan_back, scan_forward, stopped_at}
use bitloader.Prelude.Int.{negsuc, pos}

-- A program: nothing, a character that is no bracket, or a loop, and what comes after.
pub data Program : Type 0 where
  end : Program
  then_char : ℕ → Program → Program
  then_loop : Program → Program → Program

abbrev pub text : Program → List ℕ
text end = []
text (then_char c p) = c ∷ text p
text (then_loop b p) = b'[' ∷ (text b ++ (b']' ∷ text p))

-- Its characters are ASCII, and brackets are only where loops are.
abbrev pub Plain : Program → Type 0
Plain end = Unit
Plain (then_char c p) = (c < 128) × (c ≢ b'[') × (c ≢ b']') × Plain p
Plain (then_loop b p) = Plain b × Plain p

-- The text stands in the code from an offset on.
abbrev pub Reads : (ℕ → ℕ) → ℕ → List ℕ → Type 0
Reads code o [] = Unit
Reads code o (c ∷ cs) = (code o ≡ c) × Reads code (o + 1) cs

pub Reads-append :
    (code : ℕ → ℕ) (o : ℕ) (xs ys : List ℕ)
    → Reads code o (xs ++ ys)
    → Reads code o xs × Reads code (o + length xs) ys
Reads-append code o [] ys h = (tt, subst (λ i. Reads code i ys) (omega arith) h)
Reads-append code o (x ∷ xs) ys h =
    let parts = Reads-append code (o + 1) xs ys h.1 in
    ((h.0, parts.0), subst (λ i. Reads code i ys) (omega arith) parts.1)

pub record LoopAt (code : ℕ → ℕ) (o : ℕ) (b p : Program) : Type 0 where
  pub opens : code o ≡ b'['
  pub body : Reads code (o + 1) (text b)
  pub closes : code (o + 1 + length (text b)) ≡ b']'
  pub rest : Reads code (o + 1 + length (text b) + 1) (text p)

pub Reads-LoopAt :
    (code : ℕ → ℕ) (o : ℕ) (b p : Program) → Reads code o (text (then_loop b p)) → LoopAt code o b p
Reads-LoopAt code o b p h =
    let parts = Reads-append code (o + 1) (text b) (b']' ∷ text p) h.1 in
    record { opens = h.0; body = parts.0; closes = parts.1.0; rest = parts.1.1 }

module _ (code : ℕ → ℕ) (code_len : ℕ) (big : 128 ≤ code_len) where
  forward_plain :
      (left o counter c : ℕ)
      → code o ≡ c
      → c < 128
      → c ≢ b'['
      → c ≢ b']'
      → scan_forward code code_len (suc left) o counter
        ≡ scan_forward code code_len left (o + 1) counter
  unfolding scan_forward
  forward_plain left o counter c at small no_open no_close = ground arith

  forward_open :
      (left o counter : ℕ)
      → code o ≡ b'['
      → scan_forward code code_len (suc left) o counter
        ≡ scan_forward code code_len left (o + 1) (counter + 1)
  unfolding scan_forward
  forward_open left o counter at = ground arith

  forward_close :
      (left o counter : ℕ)
      → code o ≡ b']'
      → scan_forward code code_len (suc left) o (counter + 1)
        ≡ scan_forward code code_len left (o + 1) counter
  unfolding scan_forward
  forward_close left o counter at = ground arith

  pub forward_end : (o : ℕ) → scan_forward code code_len 0 o 0 ≡ stopped_at (pos o)
  unfolding scan_forward
  forward_end o = refl

  pub forward_found :
      (left o : ℕ) → code o ≡ b']' → scan_forward code code_len (suc left) o 0 ≡ stopped_at (pos o)
  unfolding scan_forward
  forward_found left o at = ground arith

  -- A program's text is passed over, whatever the counter.
  pub scan_forward-text :
      (total left o o' counter : ℕ) (p : Program)
      → Plain p
      → Reads code o (text p)
      → total ≡ length (text p) + left
      → o' ≡ o + length (text p)
      → scan_forward code code_len total o counter ≡ scan_forward code code_len left o' counter
  scan_forward-text total left o o' counter end plain h et eo =
      let t0 : total ≡ left = omega arith in let o0 : o' ≡ o = omega arith in rw t0 (rw o0 refl)
  scan_forward-text total left o o' counter (then_char c p) plain h et eo =
      let t1 : total ≡ suc (length (text p) + left) = omega arith in
      rw t1 (
        forward_plain (length (text p) + left) o counter c h.0 plain.0 plain.1 plain.2
        ∙ scan_forward-text (length (text p) + left) left (o + 1) o' counter p plain.3 h.1 refl
            (omega arith))
  scan_forward-text total left o o' counter (then_loop b p) plain h et eo =
      let l = Reads-LoopAt code o b p h in
      let n = length (text p) + left in
      let close = o + 1 + length (text b) in
      let size = length-append (text b) (b']' ∷ text p) in
      let t1 : total ≡ suc (length (text b) + suc n) = omega (arith, et, size) in
      rw t1 (
        forward_open (length (text b) + suc n) o counter l.opens
        ∙ (scan_forward-text (length (text b) + suc n) (suc n) (o + 1) close (counter + 1) b plain.0
              l.body refl refl
            ∙ (forward_close n close counter l.closes
                ∙ scan_forward-text n left (close + 1) o' counter p plain.1 l.rest refl
                    (omega (arith, eo, size)))))

module _ (code : ℕ → ℕ) where
  back_plain :
      (o counter c : ℕ)
      → code o ≡ c
      → c < 128
      → c ≢ b'['
      → c ≢ b']'
      → scan_back code (o + 1) counter ≡ scan_back code o counter
  unfolding scan_back
  back_plain o counter c at small no_open no_close = ground arith

  back_open :
      (o counter : ℕ)
      → code o ≡ b'['
      → scan_back code (o + 1) (counter + 1) ≡ scan_back code o counter
  unfolding scan_back
  back_open o counter at = ground arith

  back_close :
      (o counter : ℕ)
      → code o ≡ b']'
      → scan_back code (o + 1) counter ≡ scan_back code o (counter + 1)
  unfolding scan_back
  back_close o counter at = ground arith

  pub back_end : scan_back code 0 0 ≡ stopped_at (negsuc 0)
  unfolding scan_back
  back_end = refl

  pub back_found : (o : ℕ) → code o ≡ b'[' → scan_back code (o + 1) 0 ≡ stopped_at (pos o)
  unfolding scan_back
  back_found o at = ground arith

  pub scan_back-text :
      (o above counter : ℕ) (p : Program)
      → Plain p
      → Reads code o (text p)
      → above ≡ o + length (text p)
      → scan_back code above counter ≡ scan_back code o counter
  scan_back-text o above counter end plain h e = let same : above ≡ o = omega arith in rw same refl
  scan_back-text o above counter (then_char c p) plain h e =
      scan_back-text (o + 1) above counter p plain.3 h.1 (omega arith)
      ∙ back_plain o counter c h.0 plain.0 plain.1 plain.2
  scan_back-text o above counter (then_loop b p) plain h e =
      let l = Reads-LoopAt code o b p h in
      let close = o + 1 + length (text b) in
      let size = length-append (text b) (b']' ∷ text p) in
      scan_back-text (close + 1) above counter p plain.1 l.rest (omega (arith, e, size))
      ∙ (back_close close counter l.closes
          ∙ (scan_back-text (o + 1) close (counter + 1) b plain.0 l.body refl
              ∙ back_open o counter l.opens))
