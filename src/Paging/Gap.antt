-- ===== src/Paging/Gap.antt =====
-- kernel/pager.c: the walk of `pager_fill` to the place of its range.
use bitloader.Prelude.{
  Bool-cases, List, arith, false, inl, inr, not, refl, true, ℕ, ◌&&◌, ◌+◌, ◌-◌, ◌<◌, ◌==◌, ◌∷◌, ◌≡◌,
  ◌≢◌, ◌≤◌,
}
use bitloader.Prelude.Run.{returns}
use bitloader.Prelude.Words.{add32, sub32}
use bitloader.Paging.{FreeBlocks, FreeMemoryBlock, Pager, fill_at, fill_between, store_block}
use bitloader.Paging.Blocks.{Chain, NotIn}
use bitloader.Paging.Fill.{Filled, between_first, filled_after, filled_before, filled_between}

-- The blocks but for `b`, `c` and `new` are as before.
abbrev pub Kept : FreeBlocks → FreeBlocks → ℕ → ℕ → ℕ → Type 0
Kept before after b c new = (a : ℕ) → b ≢ a → c ≢ a → new ≢ a → after a ≡ before a

store-other :
    (q : ℕ) (v : FreeMemoryBlock) (b : FreeBlocks) (a : ℕ) → q ≢ a → store_block q v b a ≡ b a
store-other q v b a ne = let other : (a == q) ≡ false = ground arith in rw other refl

pub record GapFilled (s : Pager) (b c : ℕ) (post : List ℕ) (new start end : ℕ) (s1 : Pager)
    : Type 0 where
  pub first : s1.first_pager_block ≡ s.first_pager_block
  pub tables : s1.tables ≡ s.tables
  pub kept : Kept s.blocks s1.blocks b c new
  pub filled : Filled s.blocks s1.blocks (s.blocks b).start b (b ∷ c ∷ post) start end

between-Kept :
    (s : Pager) (b c new start end : ℕ)
    → b ≢ 0
    → c ≢ 0
    → Kept s.blocks (fill_between new b c start end s).blocks b c new
unfolding fill_between
between-Kept s b c new start end b_there c_there a nb nc nn =
    let some_b : (b == 0) ≡ false = ground arith in
    let some_c : (c == 0) ≡ false = ground arith in
    let not_b : (a == b) ≡ false = ground arith in
    let not_c : (a == c) ≡ false = ground arith in
    let not_new : (a == new) ≡ false = ground arith in
    rw some_b (rw some_c (rw not_c (rw not_b (rw not_new refl))))

between_tables :
    (s : Pager) (b c new start end : ℕ) → (fill_between new b c start end s).tables ≡ s.tables
unfolding fill_between
between_tables s b c new start end = refl

pub fill_at-GapFilled :
    (s : Pager) (b c : ℕ) (post : List ℕ) (new start end : ℕ)
    → Chain s.blocks (s.blocks b).start b (b ∷ c ∷ post)
    → (s.blocks c).prev ≡ b
    → start ≤ end
    → (s.blocks b).end < start
    → end < (s.blocks c).start
    → new ≢ 0
    → NotIn new (b ∷ c ∷ post)
    → s.first_pager_block ≢ c
    → (s1 : Pager) × (fill_at new c start end s ≡ returns s1)
      × GapFilled s b c post new start end s1
unfolding fill_at
fill_at-GapFilled s b c post new start end chain link order after_b before_c there out not_first =
    let low = (s.blocks b).start in
    let b_there = chain.1 in
    let c_there = chain.5.1 in
    let c_small = chain.5.4 in
    let c_order = chain.5.3 in
    let next : add32 (s.blocks b).end 1 ≡ (s.blocks b).end + 1 = omega arith in
    let last : sub32 (s.blocks c).start 1 ≡ (s.blocks c).start - 1 = omega arith in
    let j : FreeMemoryBlock = record (s.blocks b) { end = end } in
    let k : FreeMemoryBlock = record (s.blocks c) { start = start } in
    elim (Bool-cases ((s.blocks b).end + 1 == start)) [
      | inl touch ↦
          let s1 : Pager = record s { blocks = store_block b j s.blocks } in
          let test : (add32 (s.blocks b).end 1 == start && not (b == 0)) ≡ true = ground arith in
          (
            s1,
            rw link (rw test refl),
            record {
              first = refl;
              tables = refl;
              kept = λ a nb nc nn. store-other b j s.blocks a nb;
              filled =
                  filled_before s low b c post start end chain order after_b before_c
                    (ground arith);
            },
          )
      | inr apart ↦
          let test : (add32 (s.blocks b).end 1 == start && not (b == 0)) ≡ false = ground arith in
          elim (Bool-cases ((s.blocks c).start - 1 == end)) [
            | inl touch ↦
                let s1 : Pager = record s { blocks = store_block c k s.blocks } in
                let test2 : (sub32 (s.blocks c).start 1 == end && not (c == 0)) ≡ true =
                  ground arith in
                (
                  s1,
                  rw link (rw test (rw test2 refl)),
                  record {
                    first = refl;
                    tables = refl;
                    kept = λ a nb nc nn. store-other c k s.blocks a nc;
                    filled =
                        filled_after s low b c post start end chain order after_b before_c
                          (omega arith) (ground arith);
                  },
                )
            | inr far ↦
                let test2 : (sub32 (s.blocks c).start 1 == end && not (c == 0)) ≡ false =
                  ground arith in
                let test3 : (new == 0) ≡ false = ground arith in
                (
                  fill_between new b c start end s,
                  rw link (rw test (rw test2 (rw test3 refl))),
                  record {
                    first =
                        between_first s low b c post start end chain order after_b before_c new
                          there out not_first;
                    tables = between_tables s b c new start end;
                    kept = between-Kept s b c new start end b_there c_there;
                    filled =
                        filled_between s low b c post start end chain order after_b before_c new
                          there out;
                  },
                )
          ]
    ]
