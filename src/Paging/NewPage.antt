-- ===== src/Paging/NewPage.antt =====
-- kernel/pager.c as a map from the pages of the addresses to the pages of memory: what a new page
-- changes of it.
use bitloader.Prelude.{
  Bool-cases, Option, ap, arith, false, fun_ext, if◌then◌else◌, inl, inr, none, refl, some, sym,
  true, ℕ, ◌%◌, ◌&&◌, ◌*◌, ◌+◌, ◌/◌, ◌<◌, ◌==◌, ◌^◌, ◌∙◌, ◌≡◌, ◌≢◌, ◌⊎◌,
}
use bitloader.Paging.{Entry, Tables, page_size, pager_error, present, set_entry, virt_to_phys}

abbrev pub look_in : Entry → (ℕ → Entry) → ℕ → Option ℕ
look_in pde row j =
    if present pde then (if present (row j) then some (row j).address else none) else none

-- The page of memory of the page `n` of the addresses.
abbrev pub lookup : Tables → ℕ → ℕ → Option ℕ
lookup tables table n =
    let pde = tables table (n / 1024) in look_in pde (tables pde.address) (n % 1024)

-- `virt_to_phys` reads the map at the address' page and keeps the place in the page.
pub virt_to_phys-lookup :
    (tables : Tables) (table a : ℕ)
    → a < 2 ^ 32
    → virt_to_phys tables a table ≡ elim (lookup tables table (a / page_size)) [
      | none ↦ pager_error
      | some page ↦ page * page_size + a % page_size
    ]
unfolding virt_to_phys
virt_to_phys-lookup tables table a small =
    let i : a / 2 ^ 22 % 1024 ≡ a / page_size / 1024 = omega arith in rw i (ground arith)

-- The tables that a directory leads to lie on pages of their own, below `end`.
pub record Separate (row : ℕ → Entry) (table end : ℕ) : Type 0 where
  pub below : table < end
  pub own : (k : ℕ) → k < 1024 → present (row k) ≡ true → (row k).address ≢ table
  pub known : (k : ℕ) → k < 1024 → present (row k) ≡ true → (row k).address < end
  pub apart :
      (k l : ℕ)
      → k < 1024
      → l < 1024
      → present (row k) ≡ true
      → present (row l) ≡ true
      → (row k).address ≡ (row l).address
      → k ≡ l

set_entry-here : (t i : ℕ) (e : Entry) (tables : Tables) → set_entry t i e tables t i ≡ e
set_entry-here t i e tables = let same : (t == t && i == i) ≡ true = ground arith in rw same refl

set_entry-other :
    (t i : ℕ) (e : Entry) (tables : Tables) (u j : ℕ)
    → (u ≢ t) ⊎ (j ≢ i)
    → set_entry t i e tables u j ≡ tables u j
set_entry-other t i e tables u j apart =
    let other : (u == t && j == i) ≡ false = ground arith in rw other refl

abbrev pub value : Entry → Option ℕ
value e = if present e then some e.address else none

abbrev pub put : ℕ → Option ℕ → (ℕ → Option ℕ) → ℕ → Option ℕ
put index page old n = if n == index then page else old n

-- The entry `j` of the table that the entry `i` of the directory leads to.
module _ (tables : Tables) (d end i j : ℕ) (sep : Separate (tables d) d end) (i_in : i < 1024)
    (here : present (tables d i) ≡ true) (e : Entry) where
  abbrev present_put : Tables
  present_put = set_entry (tables d i).address j e tables

  pub present_put-row : present_put d ≡ tables d
  present_put-row = fun_ext λ k.
      set_entry-other (tables d i).address j e tables d k
        (inl (λ same. sep.own i i_in here (sym same)))

  other_place :
      (n : ℕ)
      → n < 2 ^ 20
      → (n == j + i * 1024) ≡ false
      → present (tables d (n / 1024)) ≡ true
      → ((tables d (n / 1024)).address ≢ (tables d i).address) ⊎ (n % 1024 ≢ j)
  other_place n n_in ne pde = elim (Bool-cases (n % 1024 == j)) [
    | inl same ↦
        let far : n / 1024 ≢ i = λ same_i. absurd (ground arith) in
        inl (λ eq. far (sep.apart (n / 1024) i (omega arith) i_in pde here eq))
    | inr differs ↦ inr (λ eq. absurd (ground arith))
  ]

  put_here :
      (n : ℕ)
      → n / 1024 ≡ i
      → n % 1024 ≡ j
      → look_in (tables d (n / 1024)) (present_put (tables d (n / 1024)).address) (n % 1024)
        ≡ value e
  put_here n hi hj =
      rw hi (rw hj (rw here (ap value (set_entry-here (tables d i).address j e tables))))

  put_there :
      (n : ℕ)
      → n < 2 ^ 20
      → (n == j + i * 1024) ≡ false
      → look_in (tables d (n / 1024)) (present_put (tables d (n / 1024)).address) (n % 1024)
        ≡ lookup tables d n
  put_there n n_in ne = elim (Bool-cases (present (tables d (n / 1024)))) [
    | inl pde ↦ rw pde (
        ap value (
          set_entry-other (tables d i).address j e tables (tables d (n / 1024)).address (n % 1024)
            (other_place n n_in ne pde)))
    | inr missing ↦ rw missing refl
  ]

  pub present_put-lookup :
      (n : ℕ)
      → n < 2 ^ 20
      → j < 1024
      → lookup present_put d n ≡ put (j + i * 1024) (value e) (lookup tables d) n
  present_put-lookup n n_in j_in =
      let row =
        ap (λ r. look_in (r (n / 1024)) (present_put (r (n / 1024)).address) (n % 1024))
          present_put-row in
      row ∙ elim (Bool-cases (n == j + i * 1024)) [
        | inl same ↦ rw same (put_here n (ground arith) (ground arith))
        | inr differs ↦ rw differs (put_there n n_in differs)
      ]
