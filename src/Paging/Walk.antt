-- ===== src/Paging/Walk.antt =====
-- kernel/pager.c: `pager_fill` from the head of the list of free blocks.
use mathlib.Core.Path.{subst}
use mathlib.Core.Bool.{or_assoc}
use bitloader.Prelude.{
  List, [], ap, arith, false, length, ltb, refl, suc, sym, true, zero, ℕ, ◌++◌, ◌+◌, ◌<◌, ◌||◌, ◌∙◌,
  ◌∷◌, ◌≡◌, ◌≢◌, ◌≤◌,
}
use bitloader.Prelude.Run.{out_of_fuel, returns, ◌>>=◌}
use bitloader.Paging.{FreeBlocks, Pager, fill_at, fill_place, pager_fill}
use bitloader.Paging.Blocks.{Chain, Chain-NotIn, Chain-weaken, NotIn, free_at, in_range}
use bitloader.Paging.Fill.{Filled}
use bitloader.Paging.Gap.{Kept, fill_at-GapFilled}

-- The blocks start before `start`.
abbrev pub Below : FreeBlocks → ℕ → List ℕ → Type 0
Below blocks start [] = Unit
Below blocks start (a ∷ pre) = ((blocks a).start < start) × Below blocks start pre

NotIn-append : (q : ℕ) (pre rest : List ℕ) → NotIn q (pre ++ rest) → NotIn q rest
NotIn-append q [] rest out = out
NotIn-append q (a ∷ pre) rest out = NotIn-append q pre rest out.1

walk :
    (pre : List ℕ) (fuel : ℕ) (blocks : FreeBlocks) (low p b c : ℕ) (post : List ℕ) (start : ℕ)
    → Chain blocks low p (pre ++ b ∷ c ∷ post)
    → Below blocks start pre
    → (blocks b).start < start
    → start ≤ (blocks c).start
    → length pre + 1 < fuel
    → fill_place fuel blocks start p ≡ returns c
unfolding fill_place
walk pre zero blocks low p b c post start chain below b_below c_above enough = absurd (omega arith)
walk [] (suc zero) blocks low p b c post start chain below b_below c_above enough =
    absurd (omega arith)
walk [] (suc (suc fuel)) blocks low p b c post start chain below b_below c_above enough =
    let at_b = chain.0 in
    let at_c = chain.5.0 in
    let before : ltb (blocks b).start start ≡ true = ground arith in
    let after : ltb (blocks c).start start ≡ false = ground arith in
    rw at_b (rw before (rw at_c (rw after refl)))
walk (a ∷ pre) (suc fuel) blocks low p b c post start chain below b_below c_above enough =
    let at = chain.0 in
    let first = below.0 in
    let before : ltb (blocks a).start start ≡ true = ground arith in
    rw at (
      rw before (
        walk pre fuel blocks ((blocks a).end + 1) (blocks a).next b c post start chain.5 below.1
          b_below c_above (omega arith)))

-- The list from the block `b` on.
tail-Chain :
    (pre : List ℕ) (blocks : FreeBlocks) (low p b : ℕ) (rest : List ℕ)
    → Chain blocks low p (pre ++ b ∷ rest)
    → Chain blocks (blocks b).start b (b ∷ rest)
tail-Chain [] blocks low p b rest (at, there, from, order, small, more) =
    (refl, there, omega arith, order, small, more)
tail-Chain (a ∷ pre) blocks low p b rest chain =
    tail-Chain pre blocks ((blocks a).end + 1) (blocks a).next b rest chain.5

module _ (blocks b1 : FreeBlocks) (b c : ℕ) (post : List ℕ) (new start end : ℕ)
    (kept : Kept blocks b1 b c new)
    (filled : Filled blocks b1 (blocks b).start b (b ∷ c ∷ post) start end) where
  one_more :
      (low p a : ℕ) (old : List ℕ)
      → Chain blocks low p (a ∷ old)
      → b1 a ≡ blocks a
      → Filled blocks b1 ((blocks a).end + 1) (blocks a).next old start end
      → Filled blocks b1 low p (a ∷ old) start end
  one_more low p a old (at, there, from, order, small, _) same inner =
      let rest = inner.chain in
      record {
        list = a ∷ inner.list;
        chain = (at, there, rw same from, rw same order, rw same small, rw same rest);
        more = λ x. rw same (
            ap (λ r. in_range (blocks a).start (blocks a).end x || r) (inner.more x)
            ∙ sym (
                or_assoc (in_range (blocks a).start (blocks a).end x) (free_at blocks old x)
                  (in_range start end x)));
      }

  from_head :
      (pre : List ℕ) (low p : ℕ)
      → Chain blocks low p (pre ++ b ∷ c ∷ post)
      → NotIn new (pre ++ b ∷ c ∷ post)
      → Filled blocks b1 low p (pre ++ b ∷ c ∷ post) start end
  from_head [] low p chain out = record {
    list = filled.list;
    chain =
        subst (λ q. Chain b1 low q filled.list) (sym chain.0)
          (Chain-weaken b1 (blocks b).start low b filled.list chain.2 filled.chain);
    more = filled.more;
  }
  from_head (a ∷ pre) low p chain out =
      let below =
        Chain-NotIn blocks ((blocks a).end + 1) (blocks a).next a (pre ++ b ∷ c ∷ post) chain.5
          (let o = chain.3 in omega arith) in
      let apart = NotIn-append a pre (b ∷ c ∷ post) below in
      one_more low p a (pre ++ b ∷ c ∷ post) chain (kept a apart.0 apart.1.0 (λ e. out.0 (sym e)))
        (from_head pre ((blocks a).end + 1) (blocks a).next chain.5 out.1)

head_is_not :
    (pre : List ℕ) (blocks : FreeBlocks) (low p b c : ℕ) (post : List ℕ)
    → Chain blocks low p (pre ++ b ∷ c ∷ post)
    → p ≢ c
head_is_not [] blocks low p b c post chain e =
    let apart =
      Chain-NotIn blocks ((blocks b).end + 1) (blocks b).next b (c ∷ post) chain.5
        (let o = chain.3 in omega arith) in
    apart.0 (sym e ∙ chain.0)
head_is_not (a ∷ pre) blocks low p b c post chain e =
    let apart =
      Chain-NotIn blocks ((blocks a).end + 1) (blocks a).next a (pre ++ b ∷ c ∷ post) chain.5
        (let o = chain.3 in omega arith) in
    (NotIn-append a pre (b ∷ c ∷ post) apart).1.0 (sym e ∙ chain.0)

past_the_end :
    (fuel : ℕ) (blocks : FreeBlocks) (low p : ℕ) (rest : List ℕ) (start : ℕ)
    → Chain blocks low p rest
    → Below blocks start rest
    → (blocks 0).start < start
    → (blocks 0).next ≡ 0
    → fill_place fuel blocks start p ≡ out_of_fuel
unfolding fill_place
past_the_end zero blocks low p rest start chain below null_low null_next = refl
past_the_end (suc fuel) blocks low p [] start chain below null_low null_next =
    let before : ltb (blocks 0).start start ≡ true = ground arith in
    rw chain (
      rw before
        (past_the_end fuel blocks low (blocks 0).next [] start null_next tt null_low null_next))
past_the_end (suc fuel) blocks low p (a ∷ rest) start chain below null_low null_next =
    let at = chain.0 in
    let first = below.0 in
    let before : ltb (blocks a).start start ≡ true = ground arith in
    rw at (
      rw before (
        past_the_end fuel blocks ((blocks a).end + 1) (blocks a).next rest start chain.5 below.1
          null_low null_next))

-- `pager_fill` of a range above all the free blocks goes round its loop for ever, where the memory
-- at NULL reads as a block that starts below the range and has no next one.
pub pager_fill-endless :
    (fuel new : ℕ) (s : Pager) (rest : List ℕ) (start end : ℕ)
    → Chain s.blocks 0 s.first_pager_block rest
    → Below s.blocks start rest
    → (s.blocks 0).start < start
    → (s.blocks 0).next ≡ 0
    → pager_fill fuel new start end s ≡ out_of_fuel
unfolding pager_fill
pager_fill-endless fuel new s rest start end chain below null_low null_next =
    ap (λ r. r >>= λ entry. fill_at new entry start end s)
      (past_the_end fuel s.blocks 0 s.first_pager_block rest start chain below null_low null_next)

-- The range lies between the neighbours `b` and `c` in the list of the free blocks, the later one's
-- `prev` is right, `malloc` gives a block that is none of the list's, and the loop has a round for
-- each block.
pub record FillPlace (s : Pager) (fuel new : ℕ) (pre : List ℕ) (b c : ℕ) (post : List ℕ)
    (start end : ℕ) : Type 0 where
  pub chain : Chain s.blocks 0 s.first_pager_block (pre ++ b ∷ c ∷ post)
  pub below : Below s.blocks start pre
  pub link : (s.blocks c).prev ≡ b
  pub order : start ≤ end
  pub after_b : (s.blocks b).end < start
  pub before_c : end < (s.blocks c).start
  pub there : new ≢ 0
  pub out : NotIn new (pre ++ b ∷ c ∷ post)
  pub enough : length pre + 1 < fuel

-- `pager_fill` of a range between two neighbours in the list of free blocks leaves a list of free
-- blocks in the order of memory, in which all is free that was, and the range; the page tables are
-- left. The later one's `prev` is right, `malloc` gives a block that is none of the list's, and the
-- loop has a round for each block.
pub pager_fill-Filled :
    (fuel new : ℕ) (s : Pager) (pre : List ℕ) (b c : ℕ) (post : List ℕ) (start end : ℕ)
    → FillPlace s fuel new pre b c post start end
    → (s1 : Pager) × (pager_fill fuel new start end s ≡ returns s1)
      × (s1.tables ≡ s.tables)
      × Filled s.blocks s1.blocks 0 s1.first_pager_block (pre ++ b ∷ c ∷ post) start end
unfolding pager_fill
pager_fill-Filled fuel new s pre b c post start end place =
    let record {
      chain = chain;
      below = below;
      link = link;
      order = order;
      after_b = after_b;
      before_c = before_c;
      there = there;
      out = out;
      enough = enough;
    } =
      place in
    let tail = tail-Chain pre s.blocks 0 s.first_pager_block b (c ∷ post) chain in
    let b_order = tail.3 in
    let found =
      walk pre fuel s.blocks 0 s.first_pager_block b c post start chain below (omega arith)
        (omega arith) enough in
    let (s1, call, gap) =
      fill_at-GapFilled s b c post new start end tail link order after_b before_c there
        (NotIn-append new pre (b ∷ c ∷ post) out)
        (head_is_not pre s.blocks 0 s.first_pager_block b c post chain) in
    let first = gap.first in
    let filled =
      from_head s.blocks s1.blocks b c post new start end gap.kept gap.filled pre 0
        s.first_pager_block chain out in
    (
      s1,
      ap (λ r. r >>= λ entry. fill_at new entry start end s) found ∙ call,
      gap.tables,
      subst (λ p. Filled s.blocks s1.blocks 0 p (pre ++ b ∷ c ∷ post) start end) (sym first) filled,
    )
