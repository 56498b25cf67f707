-- ===== src/Paging/Search.antt =====
-- kernel/pager.c: the search for a page that is not mapped.
use bitloader.Prelude.{
  Bool, Bool-cases, Option, arith, false, inl, inr, ltb, none, refl, some, suc, true, zero, ℕ, ◌%◌,
  ◌&&◌, ◌*◌, ◌+◌, ◌/◌, ◌<◌, ◌==◌, ◌^◌, ◌≡◌, ◌≤◌,
}
use bitloader.Paging.{
  Entry, Tables, free_entry, free_index_loop, get_free_page_index, pager_error, present,
  table_entries_length,
}

-- The page `n` of the addresses of a table is present.
abbrev pub mapped : Tables → ℕ → ℕ → Bool
mapped tables table n =
    let pde = tables table (n / table_entries_length) in
    present pde && present (tables pde.address (n % table_entries_length))

pub data FirstFree (tables : Tables) (table : ℕ) (index : ℕ) : Type 0 where
  full :
      index ≡ pager_error
      → ((n : ℕ) → n < 2 ^ 20 → mapped tables table n ≡ true)
      → FirstFree tables table index
  found :
      index < 2 ^ 20
      → mapped tables table index ≡ false
      → ((n : ℕ) → n < index → mapped tables table n ≡ true)
      → FirstFree tables table index

data Scan (entries : ℕ → Entry) (j last : ℕ) : Option ℕ → Type 0 where
  none_free : ((k : ℕ) → j ≤ k → k < last → present (entries k) ≡ true) → Scan entries j last none
  first_free :
      (f : ℕ)
      → j ≤ f
      → f < last
      → present (entries f) ≡ false
      → ((k : ℕ) → j ≤ k → k < f → present (entries k) ≡ true)
      → Scan entries j last (some f)

extend :
    (entries : ℕ → Entry) (j : ℕ) (k : ℕ)
    → present (entries j) ≡ true
    → j ≤ k
    → (j + 1 ≤ k → present (entries k) ≡ true)
    → present (entries k) ≡ true
extend entries j k here low later = elim (Bool-cases (j == k)) [
  | inl same ↦ let e : j ≡ k = ground arith in rw (← e) here
  | inr other ↦ later (ground arith)
]

scan_step :
    (entries : ℕ → Entry) (j last : ℕ) {result : Option ℕ}
    → present (entries j) ≡ true
    → Scan entries (j + 1) last result
    → Scan entries j last result
scan_step entries j last here (none_free rest) =
    none_free (λ k low high. extend entries j k here low (λ l. rest k l high))
scan_step entries j last here (first_free f low high free rest) =
    first_free f (omega arith) high free (λ k l h. extend entries j k here l (λ l'. rest k l' h))

free_entry_lem :
    (entries : ℕ → Entry) (left j last : ℕ)
    → j + left ≡ last
    → Scan entries j last (free_entry entries left j)
unfolding free_entry
free_entry_lem entries zero j last e = none_free (λ k low high. absurd (omega arith))
free_entry_lem entries (suc left) j last e = elim (Bool-cases (present (entries j))) [
  | inl here ↦
      rw here
        (scan_step entries j last here (free_entry_lem entries left (j + 1) last (omega arith)))
  | inr free ↦
      rw free (first_free j (omega arith) (omega arith) free (λ k low high. absurd (omega arith)))
]

module _ (tables : Tables) (table : ℕ) where
  -- All the pages before the index `i` of the directory are mapped.
  abbrev Before : ℕ → Type 0
  Before i = (n : ℕ) → n < i * 1024 → mapped tables table n ≡ true

  pages_of :
      (i n j : ℕ)
      → n / 1024 ≡ i
      → n % 1024 ≡ j
      → present (tables table i) ≡ true
      → {b : Bool} → present (tables (tables table i).address j) ≡ b
      → mapped tables table n ≡ b
  pages_of i n j hi hj pde pte = rw hi (rw hj (rw pde pte))

  pages-Before :
      (i k : ℕ)
      → k ≤ 1024
      → Before i
      → present (tables table i) ≡ true
      → ((j : ℕ) → 0 ≤ j → j < k → present (tables (tables table i).address j) ≡ true)
      → (n : ℕ) → n < k + i * 1024
      → mapped tables table n ≡ true
  pages-Before i k small before pde all n h = elim (Bool-cases (ltb n (i * 1024))) [
    | inl low ↦ before n (ground arith)
    | inr high ↦
        let at : n / 1024 ≡ i = ground arith in
        pages_of i n (n % 1024) at refl pde (all (n % 1024) (omega arith) (ground arith))
  ]

  missing_table :
      (i : ℕ) → present (tables table i) ≡ false → mapped tables table (i * 1024) ≡ false
  missing_table i missing = let at : i * 1024 / 1024 ≡ i = omega arith in rw at (rw missing refl)

  loop_found :
      (i : ℕ) {r : Option ℕ} (rest : ℕ)
      → i < 1024
      → Before i
      → present (tables table i) ≡ true
      → Scan (tables (tables table i).address) 0 1024 r
      → (Before (i + 1) → FirstFree tables table rest)
      → FirstFree tables table (elim r [ none ↦ rest | some j ↦ j + i * 1024 ])
  loop_found i rest small before here (none_free all) next =
      next (λ n h. pages-Before i 1024 (omega arith) before here all n (omega arith))
  loop_found i rest small before here (first_free j low high free all) next =
      found (omega arith) (pages_of i (j + i * 1024) j (omega arith) (omega arith) here free)
        (pages-Before i j (omega arith) before here all)

  loop_lem :
      (left i : ℕ)
      → i + left ≡ 1024
      → Before i
      → FirstFree tables table (free_index_loop tables table left i)
  unfolding free_index_loop
  loop_lem zero i e before = full refl (λ n h. before n (omega arith))
  loop_lem (suc left) i e before = elim (Bool-cases (present (tables table i))) [
    | inl here ↦ rw here (
        loop_found i _ (omega arith) before here
          (free_entry_lem (tables (tables table i).address) 1024 0 1024 refl)
          (loop_lem left (i + 1) (omega arith)))
    | inr missing ↦ rw missing (found (omega arith) (missing_table i missing) before)
  ]

-- `get_free_page_index` gives the least index of a page that is not mapped, and PAGER_ERROR where
-- all the 1024 * 1024 pages are.
pub get_free_page_index-FirstFree :
    (tables : Tables) (table : ℕ) → FirstFree tables table (get_free_page_index tables table)
unfolding get_free_page_index
get_free_page_index-FirstFree tables table =
    loop_lem tables table 1024 0 refl (λ n h. absurd (omega arith))
