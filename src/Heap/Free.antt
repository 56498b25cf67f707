-- ===== src/Heap/Free.antt =====
-- `free` of kernel/heap.c joins the block with every free neighbour, on both sides.
use bitloader.Prelude.{
  Bool-cases, List, [], arith, false, if◌then◌else◌, inl, inr, length, refl, suc, true, zero, ℕ,
  ◌+◌, ◌-◌, ◌<◌, ◌==◌, ◌^◌, ◌∷◌, ◌≡◌, ◌≢◌, ◌≤◌,
}
use bitloader.Prelude.Run.{Run, returns}
use bitloader.Heap.{
  HeapState, Mem, free, free_left, free_right, header_size, merge_n, merge_p, null, set_free,
}
use bitloader.Heap.Blocks.{Block, Tiles, block}
use bitloader.Heap.Zip.{Ahead-frame, Behind-frame, Zip, Zip-Tiles, onto, start-le}
use bitloader.Heap.Merge.{
  is_free_block-false, is_free_block-null, is_free_block-true, merge_n-Zip, merge_n-result,
  merge_p-Zip, merge_p-result,
}

-- The block with all the free blocks right before it; what is left before it.
unfoldable pub absorb_left : List Block → Block → List Block × Block
absorb_left [] b = ([], b)
absorb_left (c ∷ cs) b =
    let rest = absorb_left cs (block (c.size + header_size + b.size) c.free) in
    if c.free == 1 then rest else (c ∷ cs, b)

-- The block with all the free blocks right behind it; what is left behind it.
unfoldable pub absorb_right : Block → List Block → Block × List Block
absorb_right b [] = (b, [])
absorb_right b (d ∷ ds) =
    let rest = absorb_right (block (b.size + header_size + d.size) b.free) ds in
    if d.free == 1 then rest else (b, d ∷ ds)

-- A loop ended with the block at `entry` between `before` and `after`.
record Joined (start limit : ℕ) (before : List Block) (b : Block) (after : List Block)
    (out : Run (ℕ × Mem)) : Type 0 where
  entry : ℕ
  mem : Mem
  result : out ≡ returns (entry, mem)
  zip : Zip mem start limit before entry b after

module _ (start limit : ℕ) (pos : 0 < start) (lim : limit ≤ 2 ^ 30) where
  low :
      (m : Mem) (e : ℕ) (c b : Block) (cs after : List Block)
      → Zip m start limit (c ∷ cs) e b after
      → (m e).prev ≢ null
  low m e c b cs after z =
      omega (arith, start-le m start (m e).prev (m (m e).prev).prev cs z.behind.4)

  free_left-Joined :
      (fuel : ℕ) (m : Mem) (e : ℕ) (b : Block) (before after : List Block)
      → length before < fuel
      → Zip m start limit before e b after
      → Joined start limit
          (absorb_left before b).0
          (absorb_left before b).1
          after
          (free_left fuel e m)
  unfolding free_left absorb_left
  free_left-Joined zero m e b before after enough z = elim enough [ ]
  free_left-Joined (suc fuel) m e b [] after enough z =
      rw (is_free_block-null (m e).prev m z.behind.0)
        (record { entry = e; mem = m; result = refl; zip = z })
  free_left-Joined (suc fuel) m e b (c ∷ cs) after enough z = elim (Bool-cases (c.free == 1)) [
    | inl yes_free ↦
        rw
          (
            yes_free,
            is_free_block-true (m e).prev m (low m e c b cs after z) (rw z.behind.2 yes_free),
            merge_p-result m e,
          )
          (free_left-Joined fuel (merge_p e m).1 (m e).prev
            (block (c.size + header_size + b.size) c.free) cs after (omega arith)
            (merge_p-Zip m start limit e c b cs after pos lim z))
    | inr used ↦
        rw (used, is_free_block-false (m e).prev m (rw z.behind.2 used))
          (record { entry = e; mem = m; result = refl; zip = z })
  ]

  free_right-Joined :
      (fuel : ℕ) (m : Mem) (e : ℕ) (b : Block) (before after : List Block)
      → length after < fuel
      → Zip m start limit before e b after
      → Joined start limit before
          (absorb_right b after).0
          (absorb_right b after).1
          (free_right fuel e m)
  unfolding free_right absorb_right
  free_right-Joined zero m e b before after enough z = elim enough [ ]
  free_right-Joined (suc fuel) m e b before [] enough z =
      rw (is_free_block-null (m e).next m z.ahead.0)
        (record { entry = e; mem = m; result = refl; zip = z })
  free_right-Joined (suc fuel) m e b before (d ∷ ds) enough z = elim (Bool-cases (d.free == 1)) [
    | inl yes_free ↦
        rw
          (
            yes_free,
            is_free_block-true (m e).next m (omega arith) (rw (z.ahead.0, z.ahead.2) yes_free),
            merge_n-result m e,
          )
          (free_right-Joined fuel (merge_n e m).1 e (block (b.size + header_size + d.size) b.free)
            before ds (omega arith) (merge_n-Zip m start limit e b d before ds pos lim z))
    | inr used ↦
        rw (used, is_free_block-false (m e).next m (rw (z.ahead.0, z.ahead.2) used))
          (record { entry = e; mem = m; result = refl; zip = z })
  ]

==-refl : (n : ℕ) → (n == n) ≡ true
==-refl n = ground arith

-- `free` of the payload of the block `b` at `e` marks it free and joins it with every free block
-- that adjoins it, on both sides: the heap's blocks then are the joined one between the rest.
pub free-absorb :
    (fuel start limit e : ℕ) (s : HeapState) (b : Block) (before after : List Block)
    → 0 < start
    → limit ≤ 2 ^ 30
    → length before + length after < fuel
    → Zip s.mem start limit before e b after
    → let left = absorb_left before (block b.size 1) in
      let right = absorb_right left.1 after in
      (m : Mem) × (free fuel (e + header_size) s ≡ returns (record s { mem = m }))
      × Tiles m limit start start (onto left.0 (right.0 ∷ right.1))
unfolding free
free-absorb fuel start limit e s b before after pos lim enough z =
    let m = set_free e 1 s.mem in
    let marked : Zip m start limit before e (block b.size 1) after = record {
      size = ground (arith, z.size);
      free = ground arith;
      behind =
          rw (==-refl e)
            (Behind-frame s.mem m start e (s.mem e).prev before (λ x i j. ground arith) z.behind);
      ahead = rw (==-refl e) (
          Ahead-frame s.mem m limit e (s.mem e).next (e + header_size + b.size) after
            (λ x i. ground arith) z.ahead);
    } in
    let left =
      free_left-Joined start limit pos lim fuel m e (block b.size 1) before after (omega arith)
        marked in
    let left_blocks = absorb_left before (block b.size 1) in
    let right =
      free_right-Joined start limit pos lim fuel left.mem left.entry left_blocks.1 left_blocks.0
        after (omega arith) left.zip in
    let back : e + header_size - header_size ≡ e = omega arith in
    let some_ptr : (e + header_size == null) ≡ false = ground arith in
    (
      right.mem,
      rw (some_ptr, back, left.result, right.result),
      Zip-Tiles right.mem start limit right.entry left_blocks.0 (absorb_right left_blocks.1 after).1
          (absorb_right left_blocks.1 after).0 right.zip,
    )
