-- ===== src/Paging/Fill.antt =====
-- kernel/pager.c: `pager_fill` gives its range back to the free memory.
use bitloader.Prelude.{
  List, [], ap, arith, false, refl, sym, ℕ, ◌+◌, ◌-◌, ◌<◌, ◌==◌, ◌^◌, ◌||◌, ◌∙◌, ◌∷◌, ◌≡◌, ◌≢◌, ◌≤◌,
}
use bitloader.Paging.{FreeBlocks, FreeMemoryBlock, Pager, fill_between, store_block}
use bitloader.Paging.Blocks.{
  Chain, Chain-NotIn, NotIn, Same-Chain, Same-free_at, Same-trans, free_at, in_range, prev-Same,
  store-Same, store-here,
}

-- The list after the call, with all that was free and the range.
pub record Filled (b b1 : FreeBlocks) (low p : ℕ) (old : List ℕ) (start end : ℕ) : Type 0 where
  pub list : List ℕ
  pub chain : Chain b1 low p list
  pub more : (x : ℕ) → free_at b1 list x ≡ (free_at b old x || in_range start end x)

Filled-prev :
    (b b1 : FreeBlocks) (low p : ℕ) (old : List ℕ) (start end q v : ℕ)
    → Filled b b1 low p old start end
    → Filled b (store_block q (record (b1 q) { prev = v }) b1) low p old start end
Filled-prev b b1 low p old start end q v filled =
    let list = filled.list in
    let same = prev-Same q v b1 list in
    record {
      list = list;
      chain =
          Same-Chain b1 (store_block q (record (b1 q) { prev = v }) b1) low p list same
            filled.chain;
      more = λ x.
          Same-free_at b1 (store_block q (record (b1 q) { prev = v }) b1) list x same
          ∙ filled.more x;
    }

-- The free block `b` lies before the range, and `c` after it.
module _ (s : Pager) (low b c : ℕ) (post : List ℕ) (start end : ℕ)
    (chain : Chain s.blocks low b (b ∷ c ∷ post)) (order : start ≤ end)
    (after_b : (s.blocks b).end < start) (before_c : end < (s.blocks c).start) where
  c-Chain : Chain s.blocks ((s.blocks b).end + 1) (s.blocks b).next (c ∷ post)
  c-Chain = chain.5

  b_apart : NotIn b (c ∷ post)
  b_apart =
      Chain-NotIn s.blocks ((s.blocks b).end + 1) (s.blocks b).next b (c ∷ post) c-Chain
        (let o = chain.3 in omega arith)

  c_apart : NotIn c post
  c_apart =
      Chain-NotIn s.blocks ((s.blocks c).end + 1) (s.blocks c).next c post c-Chain.5
        (let o = c-Chain.3 in omega arith)

  abbrev joined_b : FreeMemoryBlock
  joined_b = record (s.blocks b) { end = end }

  pub filled_before :
      (s.blocks b).end + 1 ≡ start
      → Filled s.blocks (store_block b joined_b s.blocks) low b (b ∷ c ∷ post) start end
  filled_before touch =
      let b1 = store_block b joined_b s.blocks in
      let here = store-here b joined_b s.blocks in
      let same = store-Same b joined_b s.blocks (c ∷ post) b_apart in
      let (bt, b_there, b_low, b_order, b_small, _) = chain in
      let (at, there, from, c_order, small, tail) = c-Chain in
      let c_from : end + 1 ≤ (s.blocks c).start = omega arith in
      let rest =
        Same-Chain s.blocks b1 (end + 1) (s.blocks b).next (c ∷ post) same
          (at, there, c_from, c_order, small, tail) in
      let b_order1 : (s.blocks b).start ≤ end = omega arith in
      let small1 : end < 2 ^ 32 = omega arith in
      record {
        list = b ∷ c ∷ post;
        chain = (refl, b_there, rw here b_low, rw here b_order1, rw here small1, rw here rest);
        more = λ x.
            let f = free_at s.blocks (c ∷ post) x in
            ap (λ r. in_range (b1 b).start (b1 b).end x || r)
              (Same-free_at s.blocks b1 (c ∷ post) x same)
            ∙ rw here (ground arith);
      }

  abbrev joined_c : FreeMemoryBlock
  joined_c = record (s.blocks c) { start = start }

  pub filled_after :
      start ≢ 0
      → (s.blocks c).start - 1 ≡ end
      → Filled s.blocks (store_block c joined_c s.blocks) low b (b ∷ c ∷ post) start end
  filled_after some_start touch =
      let b1 = store_block c joined_c s.blocks in
      let here = store-here c joined_c s.blocks in
      let same = store-Same c joined_c s.blocks post c_apart in
      let same_b = store-Same c joined_c s.blocks (b ∷ []) ((λ e. b_apart.0 (sym e)), tt) in
      let (bt, b_there, b_low, b_order, b_small, _) = chain in
      let (at, there, from, c_order, small, tail) = c-Chain in
      let tail1 = Same-Chain s.blocks b1 ((s.blocks c).end + 1) (s.blocks c).next post same tail in
      let low1 : (s.blocks b).end + 1 ≤ start = omega arith in
      let c_order1 : start ≤ (s.blocks c).end = omega arith in
      let rest : Chain b1 ((s.blocks b).end + 1) (s.blocks b).next (c ∷ post) =
        (at, there, rw here low1, rw here c_order1, rw here small, rw here tail1) in
      record {
        list = b ∷ c ∷ post;
        chain = (
          refl,
          b_there,
          rw same_b.0 b_low,
          rw same_b.0 (rw same_b.1 b_order),
          rw same_b.1 b_small,
          rw same_b.1 (rw same_b.2 rest),
        );
        more = λ x.
            let f = free_at s.blocks post x in
            ap
              (λ r. in_range (b1 b).start (b1 b).end x || (in_range (b1 c).start (b1 c).end x || r))
              (Same-free_at s.blocks b1 post x same)
            ∙ rw here (rw same_b.0 (rw same_b.1 (ground arith)));
      }

  module _ (new : ℕ) (new_there : new ≢ 0) (out : NotIn new (b ∷ c ∷ post)) where
    abbrev block : FreeMemoryBlock
    block = record { start = start; end = end; next = c; prev = b }

    abbrev with_block : FreeBlocks
    with_block = store_block new block s.blocks

    abbrev linked : FreeBlocks
    linked = store_block b (record (with_block b) { next = new }) with_block

    linked_b : linked b ≡ record (s.blocks b) { next = new }
    linked_b =
        let apart = out.0 in
        let other : (b == new) ≡ false = ground arith in
        store-here b (record (with_block b) { next = new }) with_block ∙ rw other refl

    linked_new : linked new ≡ block
    linked_new =
        let apart = out.0 in
        let other : (new == b) ≡ false = ground arith in rw other (store-here new block s.blocks)

    linked-Filled : Filled s.blocks linked low b (b ∷ c ∷ post) start end
    linked-Filled =
        let same =
          Same-trans s.blocks with_block linked (c ∷ post)
            (store-Same new block s.blocks (c ∷ post) out.1)
            (store-Same b (record (with_block b) { next = new }) with_block (c ∷ post) b_apart) in
        let (bt, b_there, b_low, b_order, b_small, _) = chain in
        let (at, there, from, c_order, small, tail) = c-Chain in
        let c_from : end + 1 ≤ (s.blocks c).start = omega arith in
        let rest =
          Same-Chain s.blocks linked (end + 1) c (c ∷ post) same
            (refl, there, c_from, c_order, small, tail) in
        let low1 : (s.blocks b).end + 1 ≤ start = omega arith in
        let small1 : end < 2 ^ 32 = omega arith in
        let new_rest : Chain linked ((s.blocks b).end + 1) new (new ∷ c ∷ post) = (
          refl,
          new_there,
          rw linked_new low1,
          rw linked_new order,
          rw linked_new small1,
          rw linked_new rest,
        ) in
        record {
          list = b ∷ new ∷ c ∷ post;
          chain = (
            refl,
            b_there,
            rw linked_b b_low,
            rw linked_b b_order,
            rw linked_b b_small,
            rw linked_b new_rest,
          );
          more = λ x.
              let f = free_at s.blocks (c ∷ post) x in
              ap
                (λ r.
                  in_range (linked b).start (linked b).end x
                  || (in_range (linked new).start (linked new).end x || r))
                (Same-free_at s.blocks linked (c ∷ post) x same)
              ∙ rw linked_b (rw linked_new (ground arith));
        }

    between_blocks :
        (fill_between new b c start end s).blocks
        ≡ store_block c (record (linked c) { prev = new }) linked
    unfolding fill_between
    between_blocks =
        let b_there = chain.1 in
        let c_there = c-Chain.1 in
        let some_b : (b == 0) ≡ false = ground arith in
        let some_c : (c == 0) ≡ false = ground arith in rw some_b (rw some_c refl)

    pub between_first :
        s.first_pager_block ≢ c
        → (fill_between new b c start end s).first_pager_block ≡ s.first_pager_block
    unfolding fill_between
    between_first not_first =
        let other : (c == s.first_pager_block) ≡ false = ground arith in rw other refl

    pub filled_between :
        Filled s.blocks (fill_between new b c start end s).blocks low b (b ∷ c ∷ post) start end
    filled_between =
        rw between_blocks
          (Filled-prev s.blocks linked low b (b ∷ c ∷ post) start end c new linked-Filled)
