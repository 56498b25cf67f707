-- ===== src/Heap/Blocks.antt =====
-- The heap as the list of its blocks, in the order of their addresses: what `next` leads through.
use bitloader.Prelude.{
  List, [], ap, arith, if◌then◌else◌, ltb, ℕ, ◌*◌, ◌+◌, ◌-◌, ◌==◌, ◌∙◌, ◌∷◌, ◌≡◌, ◌≤◌,
}
use bitloader.Heap.{Mem, header_size, null}

pub record Block : Type 0 where
  pub size : ℕ
  pub free : ℕ

abbrev pub block : ℕ → ℕ → Block
block s f = record { size = s; free = f }

-- From the pointer `p` the `next` fields lead through the blocks `bs`, which lie end to end from
-- the address `a` to `limit`.
abbrev pub Tiles : Mem → ℕ → ℕ → ℕ → List Block → Type 0
Tiles m limit p a [] = (p ≡ null) × (a ≡ limit)
Tiles m limit p a (b ∷ bs) =
    (p ≡ a)
    × ((m a).size ≡ b.size)
    × ((m a).free ≡ b.free)
    × Tiles m limit (m a).next (a + header_size + b.size) bs

pub Tiles-le : (m : Mem) (limit p a : ℕ) (bs : List Block) → Tiles m limit p a bs → a ≤ limit
Tiles-le m limit p a [] t = omega arith
Tiles-le m limit p a (b ∷ bs) t =
    omega (arith, Tiles-le m limit (m a).next (a + header_size + b.size) bs t.3)

-- Headers below the first block do not matter.
pub Tiles-frame :
    (m m' : Mem) (limit p a : ℕ) (bs : List Block)
    → ((x : ℕ) → a ≤ x → m' x ≡ m x)
    → Tiles m limit p a bs
    → Tiles m' limit p a bs
Tiles-frame m m' limit p a [] same t = t
Tiles-frame m m' limit p a (b ∷ bs) same t = (
  t.0,
  ap (λ h. h.size) (same a (omega arith)) ∙ t.1,
  ap (λ h. h.free) (same a (omega arith)) ∙ t.2,
  rw (same a (omega arith)) (
      Tiles-frame m m' limit (m a).next (a + header_size + b.size) bs (λ x h. same x (omega arith))
        t.3),
)

-- First fit over the blocks from address `a`: the payload's address, or 0, and the blocks then.
unfoldable pub alloc : ℕ → ℕ → List Block → ℕ × List Block
alloc size a [] = (null, [])
alloc size a (b ∷ bs) =
    let (p, bs') = alloc size (a + header_size + b.size) bs in
    if b.free == 0
    then (p, b ∷ bs')
    else if ltb b.size size
    then (p, b ∷ bs')
    else if ltb ((size + header_size) * 2) b.size
    then (a + header_size, block size 0 ∷ block (b.size - size - header_size) 1 ∷ bs)
    else (a + header_size, block b.size 0 ∷ bs)
