-- ===== src/Paging/Maps.antt =====
-- kernel/pager.c: `new_page` as an operation on the map from pages of addresses to pages of memory.
use bitloader.Prelude.{
  Bool-cases, List, ap, ap₂, arith, bit_or, false, if◌then◌else◌, inl, inr, refl, some, sym, true,
  ℕ, ◌%◌, ◌&&◌, ◌*◌, ◌+◌, ◌-◌, ◌/◌, ◌<◌, ◌==◌, ◌^◌, ◌∙◌, ◌∷◌, ◌≡◌, ◌≢◌, ◌≤◌,
}
use bitloader.Prelude.Run.{Run, fault, out_of_fuel, returns, ◌>>=◌}
use mathlib.Core.Path.{subst}
use bitloader.Paging.{
  Entry, Pager, Tables, align_page, alloc_table, create_new_table, empty_entry, enable,
  get_free_page_index, map_page, new_page, page_entry, page_size, page_table, pager_error,
  pager_remove, present, put_page, remove_all, remove_end, remove_inner, remove_start, set_entry,
  take_page,
}
use bitloader.Paging.NewPage.{Separate, lookup, present_put-lookup, present_put-row, put, value}
use bitloader.Paging.Bits.{bit_or-sum, bit_or-zero, enable-present}
use bitloader.Paging.Apart.{
  with_table, with_table-Separate, with_table-here, with_table-lookup, with_table-present,
}
use bitloader.Prelude.Words.{add32}
use bitloader.Paging.Search.{mapped}
use bitloader.Paging.Blocks.{Chain, NotIn}
use bitloader.Paging.Remove.{Removed, pager_remove-Removed}

-- The free memory is the same.
pub record SameFree (s s1 : Pager) : Type 0 where
  pub blocks : s1.blocks ≡ s.blocks
  pub first : s1.first_pager_block ≡ s.first_pager_block

-- A table is there for the entry `i` of the directory `d`, and nothing else has changed.
record TableMade (s : Pager) (d i : ℕ) (s1 : Pager) : Type 0 where
  here : present (s1.tables d i) ≡ true
  separate : Separate (s1.tables d) d s1.page_tables_end
  same : (n : ℕ) → n < 2 ^ 20 → lookup s1.tables d n ≡ lookup s.tables d n
  free : SameFree s s1

page_table_made :
    (d i flags : ℕ) (s : Pager)
    → i < 1024
    → s.page_tables_end + 1 < 2 ^ 20
    → Separate (s.tables d) d s.page_tables_end
    → (s1 : Pager) × (page_table d i flags s ≡ returns ((s1.tables d i).address, s1))
      × TableMade s d i s1
unfolding page_table create_new_table alloc_table
page_table_made d i flags s i_in room sep =
    let low = sep.below in
    elim (Bool-cases (present (s.tables d i))) [
      | inl here ↦
          let made : TableMade s d i s = record {
            here = here;
            separate = sep;
            same = λ n h. refl;
            free = record { blocks = refl; first = refl };
          } in
          (s, rw here refl, made)
      | inr gone ↦
          let end = s.page_tables_end in
          let emptied : Tables = λ u j. if u == end then empty_entry else s.tables u j in
          let f = enable (emptied d i).flags flags in
          let on : (f % 2 == 1) ≡ true =
            let odd = enable-present (emptied d i).flags flags in rw odd refl in
          let tables = with_table s.tables d end i sep i_in gone f on in
          let there : (end == 0) ≡ false = ground arith in
          let next : (end + 1) % 2 ^ 20 ≡ end + 1 = omega arith in
          let s1 : Pager = record s { tables = tables; page_tables_end = (end + 1) % 2 ^ 20 } in
          let made : TableMade s d i s1 = record {
            here = with_table-present s.tables d end i sep i_in gone f on;
            separate = rw next (with_table-Separate s.tables d end i sep i_in gone f on);
            same = with_table-lookup s.tables d end i sep i_in gone f on;
            free = record { blocks = refl; first = refl };
          } in
          let leads = with_table-here s.tables d end i sep i_in gone f on in
          (s1, rw gone (rw there (ap (λ t. returns (t, s1)) (sym leads))), made)
    ]

-- The page of memory `page` is put in at the page `index` of the addresses.
pub record PageMapped (s : Pager) (d index page : ℕ) (s1 : Pager) : Type 0 where
  pub maps :
      (n : ℕ) → n < 2 ^ 20 → lookup s1.tables d n ≡ put index (some page) (lookup s.tables d) n
  pub separate : Separate (s1.tables d) d s1.page_tables_end

address_sum :
    (index : ℕ)
    → index < 2 ^ 20
    → bit_or (index / 1024 * 2 ^ 22 % 2 ^ 32) (index % 1024 * 2 ^ 12) ≡ index * page_size
address_sum index small =
    let whole : index / 1024 * 2 ^ 22 % 2 ^ 32 ≡ index / 1024 * 2 ^ 22 = omega arith in
    rw whole (bit_or-sum 22 (index / 1024) (index % 1024 * 2 ^ 12) (omega arith) ∙ omega arith)

module _ (page d flags index : ℕ) (small : index < 2 ^ 20) (few : flags < page_size) (s s1 : Pager)
    (made : TableMade s d (index / 1024) s1) where
  abbrev table : ℕ
  table = (s1.tables d (index / 1024)).address

  abbrev entry : Entry
  entry = page_entry (s1.tables table (index % 1024)).flags page flags

  abbrev mapped_in : Pager
  mapped_in = record s1 { tables = set_entry table (index % 1024) entry s1.tables }

  put_page-returned : put_page index page flags (table, s1) ≡ returns (index * page_size, mapped_in)
  put_page-returned = ap (λ a. returns (a, mapped_in)) (address_sum index small)

  entry-value : value entry ≡ some (page / page_size)
  entry-value =
      let odd = enable-present (s1.tables table (index % 1024)).flags flags in
      let no_more : flags / page_size ≡ 0 = omega arith in
      rw odd (ap some (ap (bit_or (page / page_size)) no_more ∙ bit_or-zero (page / page_size)))

  put_page-lookup :
      (n : ℕ)
      → n < 2 ^ 20
      → lookup mapped_in.tables d n ≡ put index (some (page / page_size)) (lookup s.tables d) n
  put_page-lookup n n_in =
      let whole : index % 1024 + index / 1024 * 1024 ≡ index = omega arith in
      present_put-lookup s1.tables d s1.page_tables_end (index / 1024) (index % 1024) made.separate
        (omega arith) made.here entry n n_in (omega arith)
      ∙ (ap₂ (λ k v. put k v (lookup s1.tables d) n) whole entry-value
          ∙ ap (λ v. if n == index then some (page / page_size) else v) (made.same n n_in))

  put_page-PageMapped : PageMapped s d index (page / page_size) mapped_in
  put_page-PageMapped =
      let row =
        present_put-row s1.tables d s1.page_tables_end (index / 1024) (index % 1024) made.separate
          (omega arith) made.here entry in
      record {
        maps = put_page-lookup;
        separate = subst (λ r. Separate r d s1.page_tables_end) (sym row) made.separate;
      }

pub map_page-PageMapped :
    (page d flags : ℕ) (s : Pager)
    → s.page_tables_end + 1 < 2 ^ 20
    → Separate (s.tables d) d s.page_tables_end
    → get_free_page_index s.tables d < 2 ^ 20
    → flags < page_size
    → (s1 : Pager) × (map_page page d flags s
        ≡ returns (get_free_page_index s.tables d * page_size, s1))
      × PageMapped s d (get_free_page_index s.tables d) (page / page_size) s1
      × SameFree s s1
unfolding map_page
map_page-PageMapped page d flags s room sep small few =
    let index = get_free_page_index s.tables d in
    let i = index / 1024 in
    let (s1, call, made) = page_table_made d i flags s (omega arith) room sep in
    let low = sep.below in
    let at : (d + i / 1024) % 2 ^ 20 ≡ d = omega arith in
    let in_table : i % 1024 ≡ i = omega arith in
    let called : page_table ((d + i / 1024) % 2 ^ 20) (i % 1024) flags s
        ≡ returns ((s1.tables d i).address, s1) =
      ap₂ (λ t k. page_table t k flags s) at in_table ∙ call in
    (
      mapped_in page d flags index small few s s1 made,
      ap (λ r. r >>= put_page index page flags) called
          ∙ put_page-returned page d flags index small few s s1 made,
      put_page-PageMapped page d flags index small few s s1 made,
      record { blocks = made.free.blocks; first = made.free.first },
    )

record TablesKept (s s1 : Pager) : Type 0 where
  tables : s1.tables ≡ s.tables
  tables_end : s1.page_tables_end ≡ s.page_tables_end

pager_remove-returns :
    (new at start end : ℕ) (s : Pager)
    → new ≢ 0
    → (s1 : Pager) × (pager_remove new at start end s ≡ returns s1) × TablesKept s s1
unfolding pager_remove remove_all remove_start remove_end remove_inner
pager_remove-returns new at start end s room =
    let e = s.blocks at in
    let there : (new == 0) ≡ false = ground arith in
    elim (Bool-cases (start == e.start && end == e.end)) [
      | inl all ↦ (remove_all at s, rw all refl, record { tables = refl; tables_end = refl })
      | inr part ↦ elim (Bool-cases (start == e.start)) [
        | inl first ↦ (
          remove_start at end s,
          rw part (rw first refl),
          record { tables = refl; tables_end = refl },
        )
        | inr inner ↦ elim (Bool-cases (end == e.end)) [
          | inl last ↦ (
            remove_end at start s,
            rw part (rw inner (rw last refl)),
            record { tables = refl; tables_end = refl },
          )
          | inr middle ↦ (
            remove_inner new at start end s,
            rw part (rw inner (rw middle (rw there refl))),
            record { tables = refl; tables_end = refl },
          )
        ]
      ]
    ]

Removed-SameFree :
    (s s0 s1 : Pager) (old : List ℕ) (start end : ℕ)
    → SameFree s0 s1
    → Removed s old start end s0
    → Removed s old start end s1
Removed-SameFree s s0 s1 old start end same removed =
    let blocks = same.blocks in
    let first = same.first in
    record {
      list = removed.list;
      chain = rw blocks (rw first (removed.chain));
      left = λ x. rw blocks (removed.left x);
    }

abbrev pager_of : Pager → Run Pager → Pager
pager_of s (returns s1) = s1
pager_of s fault = s
pager_of s out_of_fuel = s

-- What `pager_remove` does to the free memory, and that it keeps the tables.
pager_remove_both :
    (s : Pager) (low a : ℕ) (rest : List ℕ) (new start end : ℕ)
    → Chain s.blocks low s.first_pager_block (a ∷ rest)
    → start ≤ end
    → (s.blocks a).start ≤ start
    → end ≤ (s.blocks a).end
    → new ≢ 0
    → NotIn new (a ∷ rest)
    → (s1 : Pager) × (pager_remove new a start end s ≡ returns s1)
      × TablesKept s s1
      × Removed s (a ∷ rest) start end s1
pager_remove_both s low a rest new start end chain order above below there out =
    let (s0, call, kept) = pager_remove-returns new a start end s there in
    let (s1, call1, removed) =
      pager_remove-Removed s low a rest new start end chain order above below there out in
    let same : s1 ≡ s0 = ap (pager_of s) (sym call1 ∙ call) in
    (s0, call, kept, subst (λ t. Removed s (a ∷ rest) start end t) same removed)

-- The page of memory that `new_page` takes.
abbrev pub taken_page : ℕ → Pager → ℕ
taken_page physical_address s =
    if physical_address == pager_error
    then (s.blocks s.first_pager_block).start
    else align_page physical_address

-- `new_page` takes the page of memory that is asked for, or the one where the first free block
-- starts: all is free then that was but the page's bytes, in a list in the order of memory. The page
-- is put in at the least page of the addresses that is not mapped, whose address is returned; the
-- other pages of the addresses are mapped as before, and the tables still lie apart. The free blocks
-- are a list in the order of memory, the page lies in the first of them, a page of the addresses is
-- not mapped, there is room for a page table, `malloc` gives a block that is none of the list's, and
-- the flags are flags.
pub new_page-PageMapped :
    (new physical_address d flags : ℕ) (s : Pager) (low a : ℕ) (rest : List ℕ)
    → Chain s.blocks low s.first_pager_block (a ∷ rest)
    → (s.blocks a).start ≤ taken_page physical_address s
    → taken_page physical_address s + (page_size - 1) ≤ (s.blocks a).end
    → new ≢ 0
    → NotIn new (a ∷ rest)
    → s.page_tables_end + 1 < 2 ^ 20
    → Separate (s.tables d) d s.page_tables_end
    → get_free_page_index s.tables d < 2 ^ 20
    → flags < page_size
    → (s1 : Pager) × (new_page new physical_address d flags s
        ≡ returns (get_free_page_index s.tables d * page_size, s1))
      × PageMapped s d
          (get_free_page_index s.tables d)
          (taken_page physical_address s / page_size)
          s1
      × Removed s
          (a ∷ rest)
          (taken_page physical_address s)
          (taken_page physical_address s + (page_size - 1))
          s1
unfolding new_page take_page
new_page-PageMapped new physical_address d flags s low a rest chain above below there out room sep
      small few =
    let page = taken_page physical_address s in
    let fits = chain.4 in
    let end : add32 page (page_size - 1) ≡ page + (page_size - 1) = omega (arith, below, fits) in
    let (s0, removed, kept, free) =
      pager_remove_both s low a rest new page (page + (page_size - 1)) chain (omega arith) above
        below there out in
    let call0 : pager_remove new s.first_pager_block page (add32 page (page_size - 1)) s
        ≡ returns s0 =
      ap₂ (λ b e. pager_remove new b page e s) chain.0 end ∙ removed in
    let ends = kept.tables_end in
    let table = kept.tables in
    let sep0 : Separate (s0.tables d) d s0.page_tables_end =
      subst (λ e. Separate (s0.tables d) d e) (sym ends)
        (subst (λ t. Separate (t d) d s.page_tables_end) (sym table) sep) in
    let index = ap (λ t. get_free_page_index t d) table in
    let (s1, call, mapped, same_free) =
      map_page-PageMapped page d flags s0 (omega (arith, ends)) sep0 (omega (arith, index)) few in
    let give : Pager → Run (ℕ × Pager) = λ s2. returns (page, s2) in
    let then_map : ℕ × Pager → Run (ℕ × Pager) = λ taken. map_page taken.0 d flags taken.1 in
    (
      s1,
      ap (λ r. r >>= give >>= then_map) call0
          ∙ (call ∙ ap (λ k. returns (k * page_size, s1)) index),
      record {
        maps = λ n n_in.
            mapped.maps n n_in
            ∙ (ap (λ k. put k (some (page / page_size)) (lookup s0.tables d) n) index
                ∙ ap
                    (λ t.
                      put (get_free_page_index s.tables d) (some (page / page_size)) (lookup t d) n)
                    table);
        separate = mapped.separate;
      },
      Removed-SameFree s s0 s1 (a ∷ rest) page (page + (page_size - 1)) same_free free,
    )
