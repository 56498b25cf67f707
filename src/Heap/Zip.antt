-- ===== src/Heap/Zip.antt =====
-- The heap seen from one of its blocks: what `prev` leads back through, and what `next` leads to.
use bitloader.Prelude.{List, [], ap, arith, refl, ℕ, ◌+◌, ◌<◌, ◌∙◌, ◌∷◌, ◌≡◌, ◌≤◌}
use bitloader.Heap.{Mem, header_size, null}
use bitloader.Heap.Blocks.{Block, Tiles}

-- From `p` the `prev` fields lead back, the nearest first, through blocks that end at `e` and
-- begin at `start`; each one's `next` is the block behind it.
abbrev pub Behind : Mem → ℕ → ℕ → ℕ → List Block → Type 0
Behind m start e p [] = (p ≡ null) × (e ≡ start)
Behind m start e p (b ∷ bs) =
    (p + header_size + b.size ≡ e)
    × ((m p).size ≡ b.size)
    × ((m p).free ≡ b.free)
    × ((m p).next ≡ e)
    × Behind m start p (m p).prev bs

-- As `Tiles`, and each block's `prev` is the block before it, the first one's `from`.
abbrev pub Ahead : Mem → ℕ → ℕ → ℕ → ℕ → List Block → Type 0
Ahead m limit from p a [] = (p ≡ null) × (a ≡ limit)
Ahead m limit from p a (b ∷ bs) =
    (p ≡ a)
    × ((m a).size ≡ b.size)
    × ((m a).free ≡ b.free)
    × ((m a).prev ≡ from)
    × Ahead m limit a (m a).next (a + header_size + b.size) bs

pub record Zip (m : Mem) (start limit : ℕ) (before : List Block) (e : ℕ) (b : Block)
    (after : List Block) : Type 0 where
  pub size : (m e).size ≡ b.size
  pub free : (m e).free ≡ b.free
  pub behind : Behind m start e (m e).prev before
  pub ahead : Ahead m limit e (m e).next (e + header_size + b.size) after

pub start-le : (m : Mem) (start e p : ℕ) (bs : List Block) → Behind m start e p bs → start ≤ e
start-le m start e p [] h = omega arith
start-le m start e p (b ∷ bs) h = omega (arith, start-le m start p (m p).prev bs h.4)

pub le-limit :
    (m : Mem) (limit from p a : ℕ) (bs : List Block) → Ahead m limit from p a bs → a ≤ limit
le-limit m limit from p a [] h = omega arith
le-limit m limit from p a (b ∷ bs) h =
    omega (arith, le-limit m limit a (m a).next (a + header_size + b.size) bs h.4)

pub Behind-frame :
    (m m' : Mem) (start e p : ℕ) (bs : List Block)
    → ((x : ℕ) → start ≤ x → x < e → m' x ≡ m x)
    → Behind m start e p bs
    → Behind m' start e p bs
Behind-frame m m' start e p [] same h = h
Behind-frame m m' start e p (b ∷ bs) same h =
    let at : m' p ≡ m p = same p (start-le m start p (m p).prev bs h.4) (omega arith) in
    (
      h.0,
      ap (λ c. c.size) at ∙ h.1,
      ap (λ c. c.free) at ∙ h.2,
      ap (λ c. c.next) at ∙ h.3,
      rw at (Behind-frame m m' start p (m p).prev bs (λ x i j. same x i (omega arith)) h.4),
    )

pub Ahead-frame :
    (m m' : Mem) (limit from p a : ℕ) (bs : List Block)
    → ((x : ℕ) → a ≤ x → m' x ≡ m x)
    → Ahead m limit from p a bs
    → Ahead m' limit from p a bs
Ahead-frame m m' limit from p a [] same h = h
Ahead-frame m m' limit from p a (b ∷ bs) same h =
    let at : m' a ≡ m a = same a (omega arith) in
    (
      h.0,
      ap (λ c. c.size) at ∙ h.1,
      ap (λ c. c.free) at ∙ h.2,
      ap (λ c. c.prev) at ∙ h.3,
      rw at (
          Ahead-frame m m' limit a (m a).next (a + header_size + b.size) bs
            (λ x i. same x (omega arith)) h.4),
    )

-- The blocks of both sides in the order of their addresses.
abbrev pub onto : List Block → List Block → List Block
onto [] bs = bs
onto (c ∷ cs) bs = onto cs (c ∷ bs)

pub Ahead-Tiles :
    (m : Mem) (limit from p a : ℕ) (bs : List Block)
    → Ahead m limit from p a bs
    → Tiles m limit p a bs
Ahead-Tiles m limit from p a [] h = h
Ahead-Tiles m limit from p a (b ∷ bs) h =
    (h.0, h.1, h.2, Ahead-Tiles m limit a (m a).next (a + header_size + b.size) bs h.4)

onto-Tiles :
    (m : Mem) (start limit e p : ℕ) (before after : List Block)
    → Behind m start e p before
    → Tiles m limit e e after
    → Tiles m limit start start (onto before after)
onto-Tiles m start limit e p [] after h t = rw h.1 at t
onto-Tiles m start limit e p (c ∷ cs) after h t =
    onto-Tiles m start limit p (m p).prev cs (c ∷ after) h.4 (refl, h.1, h.2, rw (h.3, h.0) t)

pub Zip-Tiles :
    (m : Mem) (start limit e : ℕ) (before after : List Block) (b : Block)
    → Zip m start limit before e b after
    → Tiles m limit start start (onto before (b ∷ after))
Zip-Tiles m start limit e before after b z =
    onto-Tiles m start limit e (m e).prev before (b ∷ after) z.behind (
      refl,
      z.size,
      z.free,
      Ahead-Tiles m limit e (m e).next (e + header_size + b.size) after z.ahead,
    )
