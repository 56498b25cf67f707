-- ===== src/Heap/Stale.antt =====
-- `split` of kernel/heap.c leaves the old successor's `prev` behind, and `merge` writes through a
-- NULL `next`: what follows from both.
use bitloader.Heap.Take.{split-elsewhere}
use bitloader.Prelude.{List, ap, arith, ℕ, ◌+◌, ◌-◌, ◌<◌, ◌^◌, ◌∙◌, ◌∷◌, ◌≡◌, ◌≤◌}
use bitloader.Heap.{Mem, header_size, split}
use bitloader.Heap.Blocks.{Block, block}
use bitloader.Heap.Zip.{Ahead, le-limit}

-- After a block with a successor is split, no chain that starts with the two parts has correct
-- `prev` fields: the successor still points at the first part, past the new block between them.
split-stale_prev :
    (m : Mem) (limit from a size : ℕ) (b c : Block) (bs : List Block)
    → 0 < a
    → limit ≤ 2 ^ 30
    → size + header_size ≤ b.size
    → Ahead m limit from a a (b ∷ c ∷ bs)
    → ((m a).next ≡ a + header_size + b.size)
      × ((split a size m (m a).next).prev ≡ a)
      × ¬ (
          Ahead
            (split a size m)
            limit
            from
            a
            a
            (block size b.free ∷ block (b.size - size - header_size) 1 ∷ c ∷ bs))
split-stale_prev m limit from a size b c bs pos lim fits h =
    let x = a + header_size + b.size in
    let y = a + header_size + size + header_size + (b.size - size - header_size) in
    let high : x ≤ limit = le-limit m limit a (m a).next x (c ∷ bs) h.4 in
    let same : split a size m x ≡ m x =
      split-elsewhere m a size (omega arith) (omega arith) x (omega arith) (omega arith) in
    let there : (split a size m x).prev ≡ a = ap (λ k. k.prev) same ∙ h.4.3 in
    let meet : y ≡ x = omega arith in
    (
      h.4.0,
      rw h.4.0 there,
      λ g.
          let gap : (split a size m y).prev ≡ a + header_size + size = g.4.4.3 in
          let gap' : (split a size m x).prev ≡ a + header_size + size = rw meet at gap in
          omega arith,
    )
