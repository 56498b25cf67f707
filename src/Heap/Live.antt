-- ===== src/Heap/Live.antt =====
-- What a client of kernel/heap.c may rely on: which requests fail, and that live blocks stay.
use mathlib.Core.Path.{subst}
use native.Mathlib.Decide.{dec_lt}
use bitloader.Prelude.{
  Bool-cases, List, Option, [], arith, if◌then◌else◌, inl, inr, length, ltb, ltb→lt, none, refl,
  some, sym, ℕ, ◌*◌, ◌+◌, ◌-◌, ◌<◌, ◌==◌, ◌^◌, ◌↔◌, ◌∙◌, ◌∷◌, ◌≡◌, ◌≢◌, ◌≤◌,
}
use bitloader.Heap.{HeapState, Mem, header_size, init_heap, malloc, null}
use bitloader.Heap.Blocks.{Block, Tiles, alloc, block}
use bitloader.Heap.Zip.{Zip}
use bitloader.Heap.Malloc.{Skips, Skips-cases, alloc-nil, alloc-skip, alloc-take, malloc-alloc}
use bitloader.Prelude.Run.{Run, returns}

-- A fresh heap is one free block.
init_heap-Zip :
    (buffer size : ℕ) (s : HeapState)
    → 0 < buffer
    → header_size ≤ size
    → buffer + size ≤ 2 ^ 30
    → Zip
        (init_heap buffer size s).mem
        buffer
        (buffer + size)
        []
        buffer
        (block (size - header_size) 1)
        []
unfolding init_heap
init_heap-Zip buffer size s pos room lim = record {
  size = ground arith;
  free = ground arith;
  behind = (ground arith, refl);
  ahead = (ground arith, omega arith);
}

-- Every block is used, or too small for the request.
abbrev pub NoRoom : ℕ → List Block → Type 0
NoRoom size [] = Unit
NoRoom size (b ∷ bs) = Skips b.free b.size size × NoRoom size bs

alloc-NoRoom : (size a : ℕ) (bs : List Block) → NoRoom size bs → (alloc size a bs).0 ≡ null
alloc-NoRoom size a [] h = rw (alloc-nil size a)
alloc-NoRoom size a (b ∷ bs) h =
    rw (alloc-skip size a b bs h.0) (alloc-NoRoom size (a + header_size + b.size) bs h.1)

NoRoom-alloc : (size a : ℕ) (bs : List Block) → (alloc size a bs).0 ≡ null → NoRoom size bs
NoRoom-alloc size a [] h = tt
NoRoom-alloc size a (b ∷ bs) h = elim (Skips-cases b.free b.size size) [
  | inl skip ↦ (
    skip,
    NoRoom-alloc size (a + header_size + b.size) bs (rw (alloc-skip size a b bs skip) at h),
  )
  | inr (usable, fits) ↦
      absurd (omega (arith, subst (λ r. r.0 ≡ null) (alloc-take size a b bs usable fits) h))
]

-- The block whose header lies at `p`, of blocks that begin at `a`.
abbrev pub block_at : ℕ → List Block → ℕ → Option Block
block_at a [] p = none
block_at a (b ∷ bs) p = if p == a then some b else block_at (a + header_size + b.size) bs p

block_at-low : (a : ℕ) (bs : List Block) (p : ℕ) → p < a → block_at a bs p ≡ none
block_at-low a [] p h = refl
block_at-low a (b ∷ bs) p h = ground (arith, block_at-low (a + header_size + b.size) bs p)

block_at-cons_ne :
    (a : ℕ) (b : Block) (bs : List Block) (p : ℕ)
    → p ≢ a
    → block_at a (b ∷ bs) p ≡ block_at (a + header_size + b.size) bs p
block_at-cons_ne a b bs p ne = ground arith

block_at-ge : (a : ℕ) (bs : List Block) (p : ℕ) (c : Block) → block_at a bs p ≡ some c → a ≤ p
block_at-ge a bs p c h = elim (dec_lt p a) [
  | yes low ↦ ground (arith, block_at-low a bs p low)
  | no high ↦ omega arith
]

taken-keeps_used :
    (size a : ℕ) (b : Block) (bs : List Block) (p : ℕ) (c : Block)
    → b.free ≢ 0
    → size ≤ b.size
    → block_at a (b ∷ bs) p ≡ some c
    → c.free ≡ 0
    → block_at a
        (if ltb ((size + header_size) * 2) b.size
          then block size 0 ∷ block (b.size - size - header_size) 1 ∷ bs
          else block b.size 0 ∷ bs)
        p
      ≡ some c
taken-keeps_used size a b bs p c usable fits h used =
    let ne : p ≢ a = ground arith in
    let later : block_at (a + header_size + b.size) bs p ≡ some c =
      sym (block_at-cons_ne a b bs p ne) ∙ h in
    let far = block_at-ge (a + header_size + b.size) bs p c later in
    elim (Bool-cases (ltb ((size + header_size) * 2) b.size)) [
      | inl large ↦
          let fits' = ltb→lt ((size + header_size) * 2) b.size large in
          let meet : a + header_size + size + header_size + (b.size - size - header_size)
              ≡ a + header_size + b.size =
            omega arith in
          rw
            (
              large,
              block_at-cons_ne a (block size 0) (block (b.size - size - header_size) 1 ∷ bs) p ne,
              block_at-cons_ne (a + header_size + size) (block (b.size - size - header_size) 1) bs p
                  (omega arith),
              meet,
            )
            later
      | inr small ↦ rw (small, block_at-cons_ne a (block b.size 0) bs p ne) later
    ]

-- A block in use stays as it is, at its address.
alloc-keeps_used :
    (size a : ℕ) (bs : List Block) (p : ℕ) (c : Block)
    → block_at a bs p ≡ some c
    → c.free ≡ 0
    → block_at a (alloc size a bs).1 p ≡ some c
alloc-keeps_used size a [] p c h used = rw (alloc-nil size a) h
alloc-keeps_used size a (b ∷ bs) p c h used = elim (Skips-cases b.free b.size size) [
  | inl skip ↦
      rw (alloc-skip size a b bs skip)
        (ground (arith, alloc-keeps_used size (a + header_size + b.size) bs p c))
  | inr (usable, fits) ↦
      rw (alloc-take size a b bs usable fits) (taken-keeps_used size a b bs p c usable fits h used)
]

-- The block given out at `r.0` was free among `bs`, and now is in use and holds the request.
pub record GivesOut (size a : ℕ) (bs : List Block) (r : ℕ × List Block) : Type 0 where
  pub old : Block
  pub new : Block
  pub header : ℕ
  pub payload : r.0 ≡ header + header_size
  pub was_there : block_at a bs header ≡ some old
  pub was_free : old.free ≢ 0
  pub is_there : block_at a r.1 header ≡ some new
  pub is_used : new.free ≡ 0
  pub holds : size ≤ new.size

taken-GivesOut :
    (size a : ℕ) (b : Block) (bs : List Block)
    → b.free ≢ 0
    → size ≤ b.size
    → GivesOut size a (b ∷ bs) (
      a + header_size,
      (if ltb ((size + header_size) * 2) b.size
          then block size 0 ∷ block (b.size - size - header_size) 1 ∷ bs
          else block b.size 0 ∷ bs),
    )
taken-GivesOut size a b bs usable fits = elim (Bool-cases (ltb ((size + header_size) * 2) b.size)) [
  | inl large ↦ rw large (record {
    old = b;
    new = block size 0;
    header = a;
    payload = refl;
    was_there = ground arith;
    was_free = usable;
    is_there = ground arith;
    is_used = refl;
    holds = omega arith;
  })
  | inr small ↦ rw small (record {
    old = b;
    new = block b.size 0;
    header = a;
    payload = refl;
    was_there = ground arith;
    was_free = usable;
    is_there = ground arith;
    is_used = refl;
    holds = fits;
  })
]

alloc-GivesOut :
    (size a : ℕ) (bs : List Block)
    → (alloc size a bs).0 ≢ null
    → GivesOut size a bs (alloc size a bs)
alloc-GivesOut size a [] h = absurd (h (rw (alloc-nil size a)))
alloc-GivesOut size a (b ∷ bs) h = elim (Skips-cases b.free b.size size) [
  | inl skip ↦
      let e = alloc-skip size a b bs skip in
      let rest = alloc-GivesOut size (a + header_size + b.size) bs (λ z. h (rw e z)) in
      let far = block_at-ge (a + header_size + b.size) bs rest.header rest.old rest.was_there in
      rw e (record {
        old = rest.old;
        new = rest.new;
        header = rest.header;
        payload = rest.payload;
        was_there = block_at-cons_ne a b bs rest.header (omega arith) ∙ rest.was_there;
        was_free = rest.was_free;
        is_there =
            block_at-cons_ne a b (alloc size (a + header_size + b.size) bs).1 rest.header
              (omega arith)
            ∙ rest.is_there;
        is_used = rest.is_used;
        holds = rest.holds;
      })
  | inr (usable, fits) ↦
      rw (alloc-take size a b bs usable fits) (taken-GivesOut size a b bs usable fits)
]

-- `malloc` of `size` bytes returned `p` and left the heap `s'`, with the blocks `after`.
pub record Served (size limit : ℕ) (s : HeapState) (bs : List Block) (out : Run (ℕ × HeapState))
    : Type 0 where
  pub ptr : ℕ
  pub mem : Mem
  pub after : List Block
  pub result : out ≡ returns (ptr, record s { mem = mem })
  pub tiles : Tiles mem limit s.first_entry s.first_entry after
  pub fails : (ptr ≡ null) ↔ NoRoom size bs
  pub gives : ptr ≢ null → GivesOut size s.first_entry bs (ptr, after)
  pub keeps :
      (p : ℕ) (c : Block)
      → block_at s.first_entry bs p ≡ some c
      → c.free ≡ 0
      → block_at s.first_entry after p ≡ some c

-- On enough fuel, for a request that is not 0, `malloc` returns: NULL exactly when every block is
-- used or too small; otherwise the payload of a block that was free, is now in use and holds the
-- request. The heap stays an unbroken row of blocks, and no block in use moves or changes.
pub malloc-Served :
    (fuel size limit : ℕ) (s : HeapState) (bs : List Block)
    → 0 < s.first_entry
    → limit ≤ 2 ^ 30
    → 0 < size
    → length bs < fuel
    → Tiles s.mem limit s.first_entry s.first_entry bs
    → Served size limit s bs (malloc fuel size s)
malloc-Served fuel size limit s bs pos lim some_size enough t =
    let (m, e, tiles) = malloc-alloc fuel size limit s bs pos lim some_size enough t in
    record {
      ptr = (alloc size s.first_entry bs).0;
      mem = m;
      after = (alloc size s.first_entry bs).1;
      result = e;
      tiles = tiles;
      fails = (NoRoom-alloc size s.first_entry bs, alloc-NoRoom size s.first_entry bs);
      gives = alloc-GivesOut size s.first_entry bs;
      keeps = alloc-keeps_used size s.first_entry bs;
    }
