-- ===== src/Heap/Take.antt =====
-- How `malloc` of kernel/heap.c takes a block and splits off what is left.
use mathlib.Core.Path.{subst, subst₂}
use bitloader.Prelude.{
  Bool-cases, List, ap, arith, false, if◌then◌else◌, inl, inr, ltb, ltb→lt, refl, sym, true, ℕ, ◌*◌,
  ◌+◌, ◌-◌, ◌<◌, ◌^◌, ◌∙◌, ◌∷◌, ◌≡◌, ◌≢◌, ◌≤◌,
}
use bitloader.Heap.{Mem, header_size, split, take_block}
use bitloader.Heap.Blocks.{Block, Tiles, Tiles-frame, Tiles-le, block}

module _ (m : Mem) (entry size : ℕ) where
  -- What `split` writes, where nothing wraps.
  split-at_entry :
      entry + (m entry).size ≤ 2 ^ 31
      → size + header_size ≤ (m entry).size
      → split entry size m entry
        ≡ record (m entry) { size = size; next = entry + header_size + size }
  unfolding split
  split-at_entry h k = ground arith

  split-at_next :
      entry + (m entry).size ≤ 2 ^ 31
      → size + header_size ≤ (m entry).size
      → split entry size m (entry + header_size + size) ≡ record {
        size = (m entry).size - size - header_size;
        free = 1;
        prev = entry;
        next = (m entry).next;
      }
  unfolding split
  split-at_next h k = ground arith

  pub split-elsewhere :
      entry + (m entry).size ≤ 2 ^ 31
      → size + header_size ≤ (m entry).size
      → (x : ℕ) → x ≢ entry
      → x ≢ entry + header_size + size
      → split entry size m x ≡ m x
  unfolding split
  split-elsewhere h k x ne ne' = ground arith

-- What follows the block that is taken is left alone.
take_block-above :
    (m : Mem) (a size x : ℕ)
    → a + (m a).size ≤ 2 ^ 30
    → size ≤ (m a).size
    → a + header_size + (m a).size ≤ x
    → (take_block a size m).1 x ≡ m x
unfolding take_block
take_block-above m a size x lim fits far = ground (arith, split-elsewhere m a size (omega arith))

pub take_block-below :
    (m : Mem) (a size x : ℕ)
    → a + (m a).size ≤ 2 ^ 30
    → size ≤ (m a).size
    → x < a
    → (take_block a size m).1 x ≡ m x
unfolding take_block
take_block-below m a size x lim fits below = ground (arith, split-elsewhere m a size (omega arith))

module _ (m : Mem) (a size : ℕ) (lim : a + (m a).size ≤ 2 ^ 30) (fits : size ≤ (m a).size) where
  take_block-whole :
      ltb ((size + header_size) * 2) (m a).size ≡ false
      → (take_block a size m).1 a ≡ record (m a) { free = 0 }
  unfolding take_block
  take_block-whole h = ground arith

  take_block-front :
      ltb ((size + header_size) * 2) (m a).size ≡ true
      → (take_block a size m).1 a
        ≡ record (m a) { size = size; free = 0; next = a + header_size + size }
  unfolding take_block
  take_block-front h = ground (arith, split-at_entry m a size)

  take_block-back :
      ltb ((size + header_size) * 2) (m a).size ≡ true
      → (take_block a size m).1 (a + header_size + size)
        ≡ record { size = (m a).size - size - header_size; free = 1; prev = a; next = (m a).next }
  unfolding take_block
  take_block-back h = ground (arith, split-at_next m a size)

-- Taking a free block that is large enough marks it used, and cuts off a free block behind it if
-- that is worth it.
pub take_block-Tiles :
    (m : Mem) (limit a size : ℕ) (b : Block) (bs : List Block)
    → limit ≤ 2 ^ 30
    → size ≤ b.size
    → Tiles m limit a a (b ∷ bs)
    → Tiles (take_block a size m).1 limit a a (
        if ltb ((size + header_size) * 2) b.size
        then block size 0 ∷ block (b.size - size - header_size) 1 ∷ bs
        else block b.size 0 ∷ bs)
take_block-Tiles m limit a size b bs lim fits t =
    elim (Bool-cases (ltb ((size + header_size) * 2) b.size)) [
      | inl large ↦
          let big : ltb ((size + header_size) * 2) (m a).size ≡ true = rw t.1 large in
          let front = take_block-front m a size in_heap (omega arith) big in
          let back = take_block-back m a size in_heap (omega arith) big in
          rw large (
            refl,
            ap (λ h. h.size) front,
            ap (λ h. h.free) front,
            (
              ap (λ h. h.next) front,
              ap (λ h. h.size) back ∙ ap (λ n. n - size - header_size) t.1,
              ap (λ h. h.free) back,
              subst₂ (λ p e. Tiles (take_block a size m).1 limit p e bs)
                  (sym (ap (λ h. h.next) back)) (ends large) rest,
            ),
          )
      | inr small ↦
          let whole = take_block-whole m a size in_heap (omega arith) (rw t.1 small) in
          rw small (
            refl,
            ap (λ h. h.size) whole ∙ t.1,
            ap (λ h. h.free) whole,
            subst (λ p. Tiles (take_block a size m).1 limit p (a + header_size + b.size) bs)
                (sym (ap (λ h. h.next) whole)) rest,
          )
    ]
  where
    within : a + header_size + b.size ≤ limit
    within = Tiles-le m limit (m a).next (a + header_size + b.size) bs t.3

    in_heap : a + (m a).size ≤ 2 ^ 30
    in_heap = omega (arith, within)

    ends :
        ltb ((size + header_size) * 2) b.size ≡ true
        → a + header_size + b.size
          ≡ a + header_size + size + header_size + (b.size - size - header_size)
    ends h = omega (arith, ltb→lt ((size + header_size) * 2) b.size h)

    rest : Tiles (take_block a size m).1 limit (m a).next (a + header_size + b.size) bs
    rest =
        Tiles-frame m (take_block a size m).1 limit (m a).next (a + header_size + b.size) bs
          (λ x h. take_block-above m a size x (omega (arith, within)) (omega arith) (omega arith))
          t.3

-- Taking a block changes no header below it, and gives its payload out.
pub take_block-result : (m : Mem) (a size : ℕ) → (take_block a size m).0 ≡ a + header_size
unfolding take_block
take_block-result m a size = ground arith
