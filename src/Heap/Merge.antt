-- ===== src/Heap/Merge.antt =====
-- `merge` of kernel/heap.c joins an entry with its neighbour and keeps the list of blocks linked.
use bitloader.Prelude.{
  List, [], ap, arith, false, inl, inr, refl, sym, true, ℕ, ◌+◌, ◌<◌, ◌==◌, ◌^◌, ◌∙◌, ◌∷◌, ◌≡◌, ◌≢◌,
  ◌≤◌, ◌⊎◌,
}
use bitloader.Prelude.Words.{add32}
use bitloader.Heap.{Mem, header_size, is_free_block, merge_n, merge_p, null}
use bitloader.Heap.Blocks.{Block, block}
use bitloader.Heap.Zip.{Ahead, Ahead-frame, Behind-frame, Zip, le-limit, start-le}

module _ (m : Mem) (e : ℕ) where
  merge_p-at_prev :
      (m e).prev ≢ e
      → (m e).next ≢ (m e).prev
      → (merge_p e m).1 (m e).prev ≡ record (m (m e).prev) {
        size = add32 (m (m e).prev).size ((m e).size + header_size);
        next = (m e).next;
      }
  unfolding merge_p
  merge_p-at_prev h k = ground arith

  merge_p-at_next :
      (m e).prev ≢ e
      → (m e).next ≢ (m e).prev
      → (merge_p e m).1 (m e).next ≡ record (m (m e).next) { prev = (m e).prev }
  unfolding merge_p
  merge_p-at_next h k = ground arith

  merge_p-elsewhere :
      (x : ℕ) → (m e).prev ≢ e → x ≢ (m e).prev → x ≢ (m e).next → (merge_p e m).1 x ≡ m x
  unfolding merge_p
  merge_p-elsewhere x h k l = ground arith

  merge_n-at_entry :
      (m e).next ≢ e
      → (m (m e).next).next ≢ e
      → (merge_n e m).1 e ≡ record (m e) {
        size = add32 (m e).size ((m (m e).next).size + header_size);
        next = (m (m e).next).next;
      }
  unfolding merge_n
  merge_n-at_entry h k = ground arith

  merge_n-at_next :
      (m e).next ≢ e
      → (m (m e).next).next ≢ e
      → (merge_n e m).1 (m (m e).next).next ≡ record (m (m (m e).next).next) { prev = e }
  unfolding merge_n
  merge_n-at_next h k = ground arith

  merge_n-elsewhere :
      (x : ℕ) → (m e).next ≢ e → x ≢ e → x ≢ (m (m e).next).next → (merge_n e m).1 x ≡ m x
  unfolding merge_n
  merge_n-elsewhere x h k l = ground arith

-- The block ahead may have a new `prev`; what follows it is untouched.
Ahead-relink :
    (m m' : Mem) (limit from from' p a : ℕ) (bs : List Block)
    → m' p ≡ record (m p) { prev = from' }
    → ((x : ℕ) → a < x → m' x ≡ m x)
    → Ahead m limit from p a bs
    → Ahead m' limit from' p a bs
Ahead-relink m m' limit from from' p a [] at same h = h
Ahead-relink m m' limit from from' p a (b ∷ bs) at same h =
    let at' : m' a ≡ record (m a) { prev = from' } = rw h.0 at at in
    (
      h.0,
      ap (λ c. c.size) at' ∙ h.1,
      ap (λ c. c.free) at' ∙ h.2,
      ap (λ c. c.prev) at',
      rw at' (
          Ahead-frame m m' limit a (m a).next (a + header_size + b.size) bs
            (λ x i. same x (omega arith)) h.4),
    )

-- The next block is NULL or begins where this one ends.
next-cases :
    (m : Mem) (limit from p a : ℕ) (bs : List Block)
    → Ahead m limit from p a bs
    → (p ≡ null) ⊎ (p ≡ a)
next-cases m limit from p a [] h = inl h.0
next-cases m limit from p a (b ∷ bs) h = inr h.0

module _ (m : Mem) (start limit e : ℕ) where
  -- The block before takes this one in.
  pub merge_p-Zip :
      (c b : Block) (cs after : List Block)
      → 0 < start
      → limit ≤ 2 ^ 30
      → Zip m start limit (c ∷ cs) e b after
      → Zip
          (merge_p e m).1
          start
          limit
          cs
          (m e).prev
          (block (c.size + header_size + b.size) c.free)
          after
  merge_p-Zip c b cs after pos lim z =
      let q = (m e).prev in
      let low : start ≤ q = start-le m start q (m q).prev cs z.behind.4 in
      let high : e + header_size + b.size ≤ limit =
        le-limit m limit e (m e).next (e + header_size + b.size) after z.ahead in
      let n = next-cases m limit e (m e).next (e + header_size + b.size) after z.ahead in
      let ne : (m e).prev ≢ e = omega arith in
      let ne' : (m e).next ≢ (m e).prev = omega arith in
      let at = merge_p-at_prev m e ne ne' in
      let ends : e + header_size + b.size ≡ q + header_size + (c.size + header_size + b.size) =
        omega arith in
      record {
        size = ap (λ h. h.size) at ∙ omega arith;
        free = ap (λ h. h.free) at ∙ z.behind.2;
        behind = rw (ap (λ h. h.prev) at) (
            Behind-frame m (merge_p e m).1 start q (m q).prev cs
              (λ x i j. merge_p-elsewhere m e x ne (omega arith) (omega arith)) z.behind.4);
        ahead =
            rw (ap (λ h. h.next) at, ← ends)
              (Ahead-relink m (merge_p e m).1 limit e q (m e).next (e + header_size + b.size) after
                (merge_p-at_next m e ne ne')
                (λ x i. merge_p-elsewhere m e x ne (omega arith) (omega arith)) z.ahead);
      }

  -- This block takes the next one in.
  pub merge_n-Zip :
      (b d : Block) (before ds : List Block)
      → 0 < start
      → limit ≤ 2 ^ 30
      → Zip m start limit before e b (d ∷ ds)
      → Zip (merge_n e m).1 start limit before e (block (b.size + header_size + d.size) b.free) ds
  merge_n-Zip b d before ds pos lim z =
      let a = e + header_size + b.size in
      let low : start ≤ e = start-le m start e (m e).prev before z.behind in
      let p = (m (m e).next).next in
      let same : (m a).next ≡ p = ap (λ k. (m k).next) (sym z.ahead.0) in
      let rest : Ahead m limit a p (a + header_size + d.size) ds = rw same at z.ahead.4 in
      let n = next-cases m limit a p (a + header_size + d.size) ds rest in
      let room : (m (m e).next).size ≡ d.size = ap (λ k. (m k).size) z.ahead.0 ∙ z.ahead.1 in
      let high : a + header_size + d.size ≤ limit =
        le-limit m limit a p (a + header_size + d.size) ds rest in
      let ne : (m e).next ≢ e = omega arith in
      let ne' : p ≢ e = omega arith in
      let at = merge_n-at_entry m e ne ne' in
      let ends : a + header_size + d.size ≡ e + header_size + (b.size + header_size + d.size) =
        omega arith in
      record {
        size = ap (λ h. h.size) at ∙ omega arith;
        free = ap (λ h. h.free) at ∙ z.free;
        behind = rw (ap (λ h. h.prev) at) (
            Behind-frame m (merge_n e m).1 start e (m e).prev before
              (λ x i j. merge_n-elsewhere m e x ne (omega arith) (omega arith)) z.behind);
        ahead =
            rw (ap (λ h. h.next) at, ← ends)
              (Ahead-relink m (merge_n e m).1 limit a e p (a + header_size + d.size) ds
                (merge_n-at_next m e ne ne')
                (λ x i. merge_n-elsewhere m e x ne (omega arith) (omega arith)) rest);
      }

pub is_free_block-true :
    (p : ℕ) (m : Mem) → p ≢ null → ((m p).free == 1) ≡ true → is_free_block p m ≡ true
unfolding is_free_block
is_free_block-true p m ne f = ground arith

pub is_free_block-false : (p : ℕ) (m : Mem) → ((m p).free == 1) ≡ false → is_free_block p m ≡ false
unfolding is_free_block
is_free_block-false p m f = ground arith

pub is_free_block-null : (p : ℕ) (m : Mem) → p ≡ null → is_free_block p m ≡ false
unfolding is_free_block
is_free_block-null p m e = ground arith

pub merge_p-result : (m : Mem) (e : ℕ) → (merge_p e m).0 ≡ (m e).prev
unfolding merge_p
merge_p-result m e = refl

pub merge_n-result : (m : Mem) (e : ℕ) → (merge_n e m).0 ≡ e
unfolding merge_n
merge_n-result m e = refl
