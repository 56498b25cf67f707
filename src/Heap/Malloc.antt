-- ===== src/Heap/Malloc.antt =====
-- `malloc` of kernel/heap.c is first fit over the heap's blocks.
use bitloader.Prelude.{
  List, [], ap, arith, if◌then◌else◌, inl, inr, length, ltb, refl, suc, zero, ℕ, ◌*◌, ◌+◌, ◌-◌, ◌<◌,
  ◌^◌, ◌∷◌, ◌≡◌, ◌≢◌, ◌≤◌, ◌⊎◌,
}
use bitloader.Heap.{HeapState, Mem, free, header_size, malloc, malloc_loop, null, take_block}
use bitloader.Heap.Blocks.{Block, Tiles, Tiles-le, alloc, block}
use bitloader.Prelude.Run.{Run, returns}
use bitloader.Heap.Take.{take_block-Tiles, take_block-below, take_block-result}

-- The block is passed over.
abbrev pub Skips : ℕ → ℕ → ℕ → Type 0
Skips free room size = (free ≡ 0) ⊎ (room < size)

pub Skips-cases : (free room size : ℕ) → Skips free room size ⊎ ((free ≢ 0) × (size ≤ room))
Skips-cases free room size = ground arith

pub alloc-nil : (size a : ℕ) → alloc size a [] ≡ (null, [])
unfolding alloc
alloc-nil size a = refl

malloc_loop-null :
    (fuel p size : ℕ) (m : Mem) → p ≡ null → malloc_loop (suc fuel) p size m ≡ returns (null, m)
unfolding malloc_loop
malloc_loop-null fuel p size m h = ground arith

pub alloc-skip :
    (size a : ℕ) (b : Block) (bs : List Block)
    → Skips b.free b.size size
    → alloc size a (b ∷ bs) ≡ (
      (alloc size (a + header_size + b.size) bs).0,
      b ∷ (alloc size (a + header_size + b.size) bs).1,
    )
unfolding alloc
alloc-skip size a b bs h = ground arith

pub alloc-take :
    (size a : ℕ) (b : Block) (bs : List Block)
    → b.free ≢ 0
    → size ≤ b.size
    → alloc size a (b ∷ bs) ≡ (
      a + header_size,
      (if ltb ((size + header_size) * 2) b.size
          then block size 0 ∷ block (b.size - size - header_size) 1 ∷ bs
          else block b.size 0 ∷ bs),
    )
unfolding alloc
alloc-take size a b bs f h = ground arith

malloc_loop-skip :
    (fuel p size : ℕ) (m : Mem)
    → p ≢ null
    → Skips (m p).free (m p).size size
    → malloc_loop (suc fuel) p size m ≡ malloc_loop fuel (m p).next size m
unfolding malloc_loop
malloc_loop-skip fuel p size m ne h = ground arith

malloc_loop-take :
    (fuel p size : ℕ) (m : Mem)
    → p ≢ null
    → (m p).free ≢ 0
    → size ≤ (m p).size
    → malloc_loop (suc fuel) p size m ≡ returns (take_block p size m)
unfolding malloc_loop
malloc_loop-take fuel p size m ne f h = ground arith

-- The walk from `p` returned the address and the blocks of `r`, and changed no header below `a`.
record Allocated (m : Mem) (limit p a : ℕ) (r : ℕ × List Block) (out : Run (ℕ × Mem)) : Type 0 where
  mem : Mem
  result : out ≡ returns (r.0, mem)
  below : (x : ℕ) → x < a → mem x ≡ m x
  tiles : Tiles mem limit p a r.1

-- The walk from `p`, which is the block at `a` or NULL, ends as first fit over `bs` does.
malloc_loop-alloc :
    (fuel : ℕ) (m : Mem) (limit size p a : ℕ) (bs : List Block)
    → 0 < a
    → limit ≤ 2 ^ 30
    → length bs < fuel
    → Tiles m limit p a bs
    → Allocated m limit p a (alloc size a bs) (malloc_loop fuel p size m)
malloc_loop-alloc zero m limit size p a bs pos lim enough t = elim enough [ ]
malloc_loop-alloc (suc fuel) m limit size p a [] pos lim enough t =
    rw (alloc-nil size a, malloc_loop-null fuel p size m t.0)
      (record { mem = m; result = refl; below = λ x h. refl; tiles = t })
malloc_loop-alloc (suc fuel) m limit size p a (b ∷ bs) pos lim enough t =
    rw t.0 (elim (Skips-cases b.free b.size size) [
      | inl skip ↦
          let rest =
            malloc_loop-alloc fuel m limit size (m a).next (a + header_size + b.size) bs
              (omega arith) lim (omega arith) t.3 in
          let same : rest.mem a ≡ m a = rest.below a (omega arith) in
          rw
            (
              alloc-skip size a b bs skip,
              malloc_loop-skip fuel a size m (omega arith) (rw (t.1, t.2) skip),
            )
            (record {
              mem = rest.mem;
              result = rest.result;
              below = λ x h. rest.below x (omega arith);
              tiles = (refl, rw same t.1, rw same t.2, rw same rest.tiles);
            })
      | inr (usable, fits) ↦
          rw
            (
              alloc-take size a b bs usable fits,
              malloc_loop-take fuel a size m (omega arith) (rw t.2 usable) (rw t.1 fits),
            )
            (record {
              mem = (take_block a size m).1;
              result = ap (λ q. returns (q, (take_block a size m).1)) (take_block-result m a size);
              below = λ x h.
                  take_block-below m a size x
                    (omega (arith, Tiles-le m limit (m a).next (a + header_size + b.size) bs t.3))
                    (omega arith) h;
              tiles = take_block-Tiles m limit a size b bs lim fits (refl, t.1, t.2, t.3);
            })
    ])

-- `malloc` succeeds on enough fuel and is first fit: from the blocks `bs` of a heap it returns
-- the address, or NULL, that `alloc` gives, and leaves the blocks that `alloc` leaves.
pub malloc-alloc :
    (fuel size limit : ℕ) (s : HeapState) (bs : List Block)
    → 0 < s.first_entry
    → limit ≤ 2 ^ 30
    → 0 < size
    → length bs < fuel
    → Tiles s.mem limit s.first_entry s.first_entry bs
    → (m : Mem) × (malloc fuel size s
        ≡ returns ((alloc size s.first_entry bs).0, record s { mem = m }))
      × Tiles m limit s.first_entry s.first_entry (alloc size s.first_entry bs).1
unfolding malloc
malloc-alloc fuel size limit s bs pos lim some_size enough t =
    let out =
      malloc_loop-alloc fuel s.mem limit size s.first_entry s.first_entry bs pos lim enough t in
    (out.mem, ground (arith, out.result), out.tiles)
