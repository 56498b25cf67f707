-- ===== src/Paging/Remove.antt =====
-- kernel/pager.c: `pager_remove` takes its range, and nothing else, out of the free memory.
use mathlib.Core.Bool.{and-true, and-false, or_assoc}
use bitloader.Prelude.{
  Bool, Bool-cases, List, ap, arith, false, inl, inr, not, refl, sym, true, ℕ, ◌&&◌, ◌+◌, ◌-◌, ◌<◌,
  ◌==◌, ◌^◌, ◌||◌, ◌∙◌, ◌∷◌, ◌≡◌, ◌≢◌, ◌≤◌,
}
use bitloader.Paging.{
  FreeMemoryBlock, Pager, pager_remove, remove_all, remove_end, remove_inner, remove_start,
  store_block,
}
use bitloader.Paging.Blocks.{
  Chain, Chain-NotIn, Chain-low, Chain-weaken, NotIn, Same, Same-Chain, Same-free_at, Same-trans,
  free_at, in_range, prev-Same, store-Same, store-here,
}
use bitloader.Prelude.Words.{add32, sub32}
use bitloader.Prelude.Run.{returns}

-- The list after the call, with all that was free but the range.
pub record Removed (s : Pager) (old : List ℕ) (start end : ℕ) (s1 : Pager) : Type 0 where
  pub list : List ℕ
  pub chain : Chain s1.blocks 0 s1.first_pager_block list
  pub left :
      (x : ℕ) → free_at s1.blocks list x ≡ (free_at s.blocks old x && not (in_range start end x))

module _ (s : Pager) (low a : ℕ) (rest : List ℕ) (start end : ℕ)
    (chain : Chain s.blocks low s.first_pager_block (a ∷ rest)) (order : start ≤ end)
    (above : (s.blocks a).start ≤ start) (below : end ≤ (s.blocks a).end) where
  -- The range lies below the blocks that follow.
  rest_apart : (x : ℕ) → in_range start end x ≡ true → free_at s.blocks rest x ≡ false
  rest_apart x inside =
      Chain-low s.blocks ((s.blocks a).end + 1) (s.blocks a).next rest x chain.5 (ground arith)

  rest_kept :
      (x : ℕ) → (free_at s.blocks rest x && not (in_range start end x)) ≡ free_at s.blocks rest x
  rest_kept x = elim (Bool-cases (in_range start end x)) [
    | inl inside ↦ rw inside (rw (rest_apart x inside) refl)
    | inr outside ↦ rw outside (and-true (free_at s.blocks rest x))
  ]

  NotIn-rest : NotIn a rest
  NotIn-rest =
      Chain-NotIn s.blocks ((s.blocks a).end + 1) (s.blocks a).next a rest chain.5
        (let o = chain.3 in omega arith)

  -- What the blocks `b1` of a new list hold is what is left, where it is so of the block itself.
  left_of :
      (x : ℕ) (b : Bool)
      → (in_range start end x ≡ true → b ≡ false)
      → (in_range start end x ≡ false → b ≡ in_range (s.blocks a).start (s.blocks a).end x)
      → (b || free_at s.blocks rest x)
        ≡ (free_at s.blocks (a ∷ rest) x && not (in_range start end x))
  left_of x b inside outside = elim (Bool-cases (in_range start end x)) [
    | inl in_it ↦ rw (inside in_it) (
        rw (rest_apart x in_it)
          (rw in_it (sym (and-false (in_range (s.blocks a).start (s.blocks a).end x || false)))))
    | inr out_of_it ↦
        rw (outside out_of_it) (rw out_of_it (sym (and-true (free_at s.blocks (a ∷ rest) x))))
  ]

  Removed-all :
      start ≡ (s.blocks a).start
      → end ≡ (s.blocks a).end
      → Removed s (a ∷ rest) start end (remove_all a s)
  unfolding remove_all
  Removed-all e1 e2 =
      let same = prev-Same (s.blocks a).next 0 s.blocks rest in
      record {
        list = rest;
        chain = Same-Chain s.blocks (remove_all a s).blocks 0 (s.blocks a).next rest same (
            Chain-weaken s.blocks ((s.blocks a).end + 1) 0 (s.blocks a).next rest (omega arith)
              chain.5);
        left = λ x.
            Same-free_at s.blocks (remove_all a s).blocks rest x same
            ∙ left_of x false (λ h. refl) (λ h. ground arith);
      }

  -- A part of the block is left in its place.
  Removed-part :
      (s1 : Pager) (b : FreeMemoryBlock)
      → s1.blocks a ≡ b
      → s1.first_pager_block ≡ a
      → Same s.blocks s1.blocks rest
      → b.next ≡ (s.blocks a).next
      → b.start ≤ b.end
      → b.end ≤ (s.blocks a).end
      → ((x : ℕ) → in_range start end x ≡ true → in_range b.start b.end x ≡ false)
      → ((x : ℕ)
          → in_range start end x ≡ false
          → in_range b.start b.end x ≡ in_range (s.blocks a).start (s.blocks a).end x)
      → Removed s (a ∷ rest) start end s1
  Removed-part s1 b here first same next ordered shorter inside outside =
      let small = chain.4 in
      let tail = Same-Chain s.blocks s1.blocks (b.end + 1) (s.blocks a).next rest same (
        Chain-weaken s.blocks ((s.blocks a).end + 1) (b.end + 1) (s.blocks a).next rest
          (omega arith) chain.5) in
      let small1 : b.end < 2 ^ 32 = omega arith in
      let none_below : 0 ≤ b.start = omega arith in
      record {
        list = a ∷ rest;
        chain = (
          first,
          chain.1,
          rw here none_below,
          rw here ordered,
          rw here small1,
          rw here (rw next tail),
        );
        left = λ x. rw here (
            ap (λ r. in_range b.start b.end x || r) (Same-free_at s.blocks s1.blocks rest x same)
            ∙ left_of x (in_range b.start b.end x) (inside x) (outside x));
      }

  Removed-start :
      start ≡ (s.blocks a).start
      → end ≢ (s.blocks a).end
      → Removed s (a ∷ rest) start end (remove_start a end s)
  unfolding remove_start
  Removed-start e1 e2 =
      let small = chain.4 in
      let b : FreeMemoryBlock = record (s.blocks a) { start = add32 end 1 } in
      let next : add32 end 1 ≡ end + 1 = omega arith in
      Removed-part (remove_start a end s) b (store-here a b s.blocks) chain.0
        (store-Same a b s.blocks rest NotIn-rest) refl (omega arith) (omega arith)
        (λ x h. ground arith) (λ x h. ground arith)

  Removed-end :
      start ≢ (s.blocks a).start
      → end ≡ (s.blocks a).end
      → Removed s (a ∷ rest) start end (remove_end a start s)
  unfolding remove_end
  Removed-end e1 e2 =
      let small = chain.4 in
      let b : FreeMemoryBlock = record (s.blocks a) { end = sub32 start 1 } in
      let next : sub32 start 1 ≡ start - 1 = omega arith in
      Removed-part (remove_end a start s) b (store-here a b s.blocks) chain.0
        (store-Same a b s.blocks rest NotIn-rest) refl (omega arith) (omega arith)
        (λ x h. ground arith) (λ x h. ground arith)

  Removed-inner :
      (new : ℕ)
      → new ≢ 0
      → NotIn new (a ∷ rest)
      → start ≢ (s.blocks a).start
      → end ≢ (s.blocks a).end
      → Removed s (a ∷ rest) start end (remove_inner new a start end s)
  unfolding remove_inner
  Removed-inner new there out e1 e2 =
      let small = chain.4 in
      let b : FreeMemoryBlock = record (s.blocks a) { end = sub32 start 1; next = new } in
      let c : FreeMemoryBlock = record {
        start = add32 end 1;
        end = (s.blocks a).end;
        next = (s.blocks a).next;
        prev = a;
      } in
      let low : sub32 start 1 ≡ start - 1 = omega arith in
      let high : add32 end 1 ≡ end + 1 = omega arith in
      let mid = store_block new c s.blocks in
      let after = (remove_inner new a start end s).blocks in
      let apart : (new == a) ≡ false = let ne = out.0 in ground arith in
      let first : after a ≡ b = store-here a b mid in
      let second : after new ≡ c = rw apart (store-here new c s.blocks) in
      let same =
        Same-trans s.blocks mid after rest (store-Same new c s.blocks rest out.1)
          (store-Same a b mid rest NotIn-rest) in
      let tail = Same-Chain s.blocks after (c.end + 1) c.next rest same chain.5 in
      let rest_of : Chain after (b.end + 1) new (new ∷ rest) = (
        refl,
        there,
        rw second (omega arith),
        rw second (omega arith),
        rw second small,
        rw second tail,
      ) in
      record {
        list = a ∷ new ∷ rest;
        chain = (
          chain.0,
          chain.1,
          omega arith,
          rw first (omega arith),
          rw first (omega arith),
          rw first rest_of,
        );
        left = λ x. rw first (
            rw second (
              ap (λ r. in_range b.start b.end x || (in_range c.start c.end x || r))
                (Same-free_at s.blocks after rest x same)
              ∙ (sym (
                    or_assoc (in_range b.start b.end x) (in_range c.start c.end x)
                      (free_at s.blocks rest x))
                  ∙ left_of x (in_range b.start b.end x || in_range c.start c.end x)
                      (λ h. ground arith) (λ h. ground arith))));
      }

-- `pager_remove` on the first free block, of a range that lies in it, leaves a list of free blocks
-- in the order of memory, in which all is free that was but the range. `malloc` gives a block that
-- is none of the list's.
pub pager_remove-Removed :
    (s : Pager) (low a : ℕ) (rest : List ℕ) (new start end : ℕ)
    → Chain s.blocks low s.first_pager_block (a ∷ rest)
    → start ≤ end
    → (s.blocks a).start ≤ start
    → end ≤ (s.blocks a).end
    → new ≢ 0
    → NotIn new (a ∷ rest)
    → (s1 : Pager) × (pager_remove new a start end s ≡ returns s1)
      × Removed s (a ∷ rest) start end s1
unfolding pager_remove
pager_remove-Removed s low a rest new start end chain order above below there out =
    let e = s.blocks a in
    let is_there : (new == 0) ≡ false = ground arith in
    elim (Bool-cases (start == e.start)) [
      | inl first ↦ elim (Bool-cases (end == e.end)) [
        | inl last ↦ (
          remove_all a s,
          rw first (rw last refl),
          Removed-all s low a rest start end chain order above below (ground arith) (ground arith),
        )
        | inr more ↦ (
          remove_start a end s,
          rw first (rw more refl),
          Removed-start s low a rest start end chain order above below (ground arith)
              (ground arith),
        )
      ]
      | inr later ↦ elim (Bool-cases (end == e.end)) [
        | inl last ↦ (
          remove_end a start s,
          rw later (rw last refl),
          Removed-end s low a rest start end chain order above below (ground arith) (ground arith),
        )
        | inr more ↦ (
          remove_inner new a start end s,
          rw later (rw more (rw is_there refl)),
          Removed-inner s low a rest start end chain order above below new there out (ground arith)
              (ground arith),
        )
      ]
    ]
