-- ===== src/Paging/Blocks.antt =====
-- kernel/pager.c: the list of the free blocks as a set of addresses, and what `pager_remove` takes
-- out of it.
use bitloader.Prelude.{
  Bool, Bool-cases, List, [], ap, arith, false, inl, inr, leb, refl, true, ℕ, ◌&&◌, ◌+◌, ◌<◌, ◌==◌,
  ◌^◌, ◌||◌, ◌∙◌, ◌∷◌, ◌≡◌, ◌≢◌, ◌≤◌,
}
use bitloader.Paging.{FreeBlocks, FreeMemoryBlock, store_block}

-- The list from `p` on has its blocks at the addresses, in order of memory and apart, from `low` on.
abbrev pub Chain : FreeBlocks → ℕ → ℕ → List ℕ → Type 0
Chain blocks low p [] = p ≡ 0
Chain blocks low p (a ∷ rest) =
    (p ≡ a)
    × (a ≢ 0)
    × (low ≤ (blocks a).start)
    × ((blocks a).start ≤ (blocks a).end)
    × ((blocks a).end < 2 ^ 32)
    × Chain blocks ((blocks a).end + 1) (blocks a).next rest

abbrev pub in_range : ℕ → ℕ → ℕ → Bool
in_range start end x = leb start x && leb x end

-- The address `x` is free.
abbrev pub free_at : FreeBlocks → List ℕ → ℕ → Bool
free_at blocks [] x = false
free_at blocks (a ∷ rest) x = in_range (blocks a).start (blocks a).end x || free_at blocks rest x

abbrev pub NotIn : ℕ → List ℕ → Type 0
NotIn q [] = Unit
NotIn q (a ∷ rest) = (a ≢ q) × NotIn q rest

-- The blocks at the addresses are the same but for `prev`.
abbrev pub Same : FreeBlocks → FreeBlocks → List ℕ → Type 0
Same b b1 [] = Unit
Same b b1 (a ∷ rest) =
    ((b1 a).start ≡ (b a).start)
    × ((b1 a).end ≡ (b a).end)
    × ((b1 a).next ≡ (b a).next)
    × Same b b1 rest

pub Same-Chain :
    (b b1 : FreeBlocks) (low p : ℕ) (rest : List ℕ)
    → Same b b1 rest
    → Chain b low p rest
    → Chain b1 low p rest
Same-Chain b b1 low p [] same chain = chain
Same-Chain b b1 low p (a ∷ rest) (start, end, next, same) (at, there, from, order, small, more) =
    let tail = Same-Chain b b1 ((b a).end + 1) (b a).next rest same more in
    (at, there, rw start from, rw start (rw end order), rw end small, rw end (rw next tail))

pub Same-free_at :
    (b b1 : FreeBlocks) (rest : List ℕ) (x : ℕ)
    → Same b b1 rest
    → free_at b1 rest x ≡ free_at b rest x
Same-free_at b b1 [] x same = refl
Same-free_at b b1 (a ∷ rest) x (start, end, next, same) =
    rw start
      (rw end (ap (λ r. in_range (b a).start (b a).end x || r) (Same-free_at b b1 rest x same)))

pub store-Same :
    (q : ℕ) (v : FreeMemoryBlock) (b : FreeBlocks) (rest : List ℕ)
    → NotIn q rest
    → Same b (store_block q v b) rest
store-Same q v b [] out = tt
store-Same q v b (a ∷ rest) (ne, out) =
    let other : (a == q) ≡ false = ground arith in
    (rw other refl, rw other refl, rw other refl, store-Same q v b rest out)

pub store-here : (q : ℕ) (v : FreeMemoryBlock) (b : FreeBlocks) → store_block q v b q ≡ v
store-here q v b = let same : (q == q) ≡ true = ground arith in rw same refl

pub Chain-weaken :
    (b : FreeBlocks) (low low1 p : ℕ) (rest : List ℕ)
    → low1 ≤ low
    → Chain b low p rest
    → Chain b low1 p rest
Chain-weaken b low low1 p [] less chain = chain
Chain-weaken b low low1 p (a ∷ rest) less (at, there, from, order, small, more) =
    (at, there, omega (arith, from, less), order, small, more)

pub Same-trans :
    (b b1 b2 : FreeBlocks) (rest : List ℕ) → Same b b1 rest → Same b1 b2 rest → Same b b2 rest
Same-trans b b1 b2 [] one two = tt
Same-trans b b1 b2 (a ∷ rest) one two =
    (two.0 ∙ one.0, two.1 ∙ one.1, two.2 ∙ one.2, Same-trans b b1 b2 rest one.3 two.3)

-- A write of `prev`.
pub prev-Same :
    (q v : ℕ) (b : FreeBlocks) (rest : List ℕ)
    → Same b (store_block q (record (b q) { prev = v }) b) rest
prev-Same q v b [] = tt
prev-Same q v b (a ∷ rest) = elim (Bool-cases (a == q)) [
  | inl here ↦
      let at : q ≡ a = ground arith in
      (rw here (rw at refl), rw here (rw at refl), rw here (rw at refl), prev-Same q v b rest)
  | inr other ↦ (rw other refl, rw other refl, rw other refl, prev-Same q v b rest)
]

-- A block below the list is none of it.
pub Chain-NotIn :
    (b : FreeBlocks) (low p q : ℕ) (rest : List ℕ)
    → Chain b low p rest
    → (b q).start < low
    → NotIn q rest
Chain-NotIn b low p q [] chain below = tt
Chain-NotIn b low p q (a ∷ rest) (at, there, from, order, small, more) below = (
  (λ e. absurd (omega (arith, from, below, ap (λ c. (b c).start) e))),
  Chain-NotIn b ((b a).end + 1) (b a).next q rest more (omega (arith, from, below, order)),
)

-- Nothing below the list is free.
pub Chain-low :
    (b : FreeBlocks) (low p : ℕ) (rest : List ℕ) (x : ℕ)
    → Chain b low p rest
    → x < low
    → free_at b rest x ≡ false
Chain-low b low p [] x chain below = refl
Chain-low b low p (a ∷ rest) x (at, there, from, order, small, more) below =
    let out : in_range (b a).start (b a).end x ≡ false = ground arith in
    rw out (Chain-low b ((b a).end + 1) (b a).next rest x more (omega (arith, from, below, order)))
