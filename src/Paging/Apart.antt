-- ===== src/Paging/Apart.antt =====
-- kernel/pager.c: a page table that is made lies apart from the others, and maps nothing yet.
use bitloader.Prelude.{
  Bool-cases, ap, arith, false, fun_ext, if◌then◌else◌, inl, inr, none, refl, some, sym, true, ℕ,
  ◌%◌, ◌+◌, ◌/◌, ◌<◌, ◌==◌, ◌^◌, ◌∙◌, ◌≡◌, ◌≢◌, ◌⊎◌,
}
use bitloader.Paging.{Entry, Tables, empty_entry, present, set_entry}
use bitloader.Paging.NewPage.{Separate, look_in, lookup, value}

module _ (tables : Tables) (d end i : ℕ) (sep : Separate (tables d) d end) (i_in : i < 1024)
    (gone : present (tables d i) ≡ false) (flags : ℕ) (on : (flags % 2 == 1) ≡ true) where
  abbrev made : Entry
  made = record { flags = flags; address = end }

  abbrev pub with_table : Tables
  with_table = set_entry d i made (λ u j. if u == end then empty_entry else tables u j)

  abbrev new_row : ℕ → Entry
  new_row k = if k == i then made else tables d k

  row_entry : (k : ℕ) → with_table d k ≡ new_row k
  row_entry k =
      let low = sep.below in
      let not_end : (d == end) ≡ false = ground arith in
      let own : (d == d) ≡ true = ground arith in rw own (rw not_end refl)

  with_table-row : with_table d ≡ new_row
  with_table-row = fun_ext row_entry

  old_or_new :
      (k : ℕ)
      → present (new_row k) ≡ true
      → ((k ≡ i) × ((new_row k).address ≡ end))
        ⊎ ((new_row k ≡ tables d k) × (present (tables d k) ≡ true))
  old_or_new k there = elim (Bool-cases (k == i)) [
    | inl same ↦ inl (ground arith, rw same refl)
    | inr other ↦ inr (rw other refl, (rw other at there))
  ]

  old_facts :
      (k : ℕ)
      → k < 1024
      → new_row k ≡ tables d k
      → present (tables d k) ≡ true
      → ((new_row k).address ≢ d) × ((new_row k).address < end)
  old_facts k k_in same there = rw same (sep.own k k_in there, sep.known k k_in there)

  new_address :
      (k : ℕ)
      → k < 1024
      → present (new_row k) ≡ true
      → ((new_row k).address ≢ d) × ((new_row k).address < end + 1)
  new_address k k_in there = elim (old_or_new k there) [
    | inl (_, at_end) ↦
        let low = sep.below in ((λ e. absurd (omega (arith, e, at_end, low))), omega arith)
    | inr (same, old) ↦ let facts = old_facts k k_in same old in (facts.0, omega (arith, facts.1))
  ]

  new_apart :
      (k l : ℕ)
      → k < 1024
      → l < 1024
      → present (new_row k) ≡ true
      → present (new_row l) ≡ true
      → (new_row k).address ≡ (new_row l).address
      → k ≡ l
  new_apart k l k_in l_in pk pl e = elim (old_or_new k pk) [
    | inl (ki, k_end) ↦ elim (old_or_new l pl) [
      | inl (li, _) ↦ ki ∙ sym li
      | inr (same, old) ↦
          let low = (old_facts l l_in same old).1 in absurd (omega (arith, e, k_end, low))
    ]
    | inr (same_k, old_k) ↦ elim (old_or_new l pl) [
      | inl (_, l_end) ↦
          let low = (old_facts k k_in same_k old_k).1 in absurd (omega (arith, e, l_end, low))
      | inr (same_l, old_l) ↦
          sep.apart k l k_in l_in old_k old_l
            (ap (λ t. t.address) (sym same_k) ∙ (e ∙ ap (λ t. t.address) same_l))
    ]
  ]

  pub new_row-Separate : Separate new_row d (end + 1)
  new_row-Separate = record {
    below = let low = sep.below in omega arith;
    own = λ k k_in there. (new_address k k_in there).0;
    known = λ k k_in there. (new_address k k_in there).1;
    apart = new_apart;
  }

  pub with_table-Separate : Separate (with_table d) d (end + 1)
  with_table-Separate = rw with_table-row new_row-Separate

  pub with_table-here : (with_table d i).address ≡ end
  with_table-here =
      ap (λ e. e.address) (row_entry i)
      ∙ (let same : (i == i) ≡ true = ground arith in rw same refl)

  pub with_table-present : present (with_table d i) ≡ true
  with_table-present =
      ap present (row_entry i) ∙ (let same : (i == i) ≡ true = ground arith in rw same on)

  same_table :
      (k j : ℕ)
      → k < 1024
      → present (tables d k) ≡ true
      → with_table (tables d k).address j ≡ tables (tables d k).address j
  same_table k j k_in there =
      let known = sep.known k k_in there in
      let own = sep.own k k_in there in
      let not_end : ((tables d k).address == end) ≡ false = ground arith in
      let not_own : ((tables d k).address == d) ≡ false = ground arith in
      rw not_own (rw not_end refl)

  new_table_empty : (j : ℕ) → present (with_table end j) ≡ false
  new_table_empty j =
      let low = sep.below in
      let own : (end == d) ≡ false = ground arith in
      let same : (end == end) ≡ true = ground arith in rw own (rw same refl)

  -- The new table maps nothing.
  pub with_table-lookup : (n : ℕ) → n < 2 ^ 20 → lookup with_table d n ≡ lookup tables d n
  with_table-lookup n n_in =
      let k = n / 1024 in
      ap (λ e. look_in e (with_table e.address) (n % 1024)) (row_entry k)
      ∙ elim (Bool-cases (k == i)) [
        | inl same ↦
            let at : k ≡ i = ground arith in
            rw same (
              rw on (
                rw at (
                  rw gone (
                    ap (λ b. if b then some (with_table end (n % 1024)).address else none)
                      (new_table_empty (n % 1024))))))
        | inr other ↦ elim (Bool-cases (present (tables d k))) [
          | inl there ↦ rw other (rw there (ap value (same_table k (n % 1024) (omega arith) there)))
          | inr absent ↦ rw other (rw absent refl)
        ]
      ]
