-- ===== src/Paging/FreePage.antt =====
-- kernel/pager.c: `free_page` unmaps its page and gives the page of memory back.
use mathlib.Core.Option.{some-injective, none-ne-some}
use bitloader.Prelude.{
  Bool-cases, List, ap, ap₂, arith, inl, inr, none, refl, some, true, ℕ, ◌%◌, ◌*◌, ◌++◌, ◌+◌, ◌-◌,
  ◌/◌, ◌<◌, ◌^◌, ◌∙◌, ◌∷◌, ◌≡◌,
}
use bitloader.Paging.{
  Entry, Pager, Tables, align_page, cleared, free_aligned, free_page, page_size, pager_fill,
  present, set_entry, unmap_entry, virt_to_phys,
}
use bitloader.Paging.NewPage.{
  Separate, look_in, lookup, present_put-lookup, put, value, virt_to_phys-lookup,
}
use bitloader.Prelude.Run.{returns}
use bitloader.Prelude.Words.{add32}
use bitloader.Paging.Fill.{Filled}
use bitloader.Paging.Walk.{FillPlace, pager_fill-Filled}

record Found (pde : Entry) (row : ℕ → Entry) (j page : ℕ) : Type 0 where
  pde_here : present pde ≡ true
  pte_here : present (row j) ≡ true
  address : (row j).address ≡ page

look_in-Found :
    (pde : Entry) (row : ℕ → Entry) (j page : ℕ)
    → look_in pde row j ≡ some page
    → Found pde row j page
look_in-Found pde row j page found = elim (Bool-cases (present pde)) [
  | inl here ↦ elim (Bool-cases (present (row j))) [
    | inl there ↦ record {
      pde_here = here;
      pte_here = there;
      address = some-injective (row j).address page (rw here at (rw there at found));
    }
    | inr gone ↦ absurd (none-ne-some page (rw here at (rw gone at found)))
  ]
  | inr gone ↦ absurd (none-ne-some page (rw gone at found))
]

cleared-value : (e : Entry) → value (cleared e) ≡ none
cleared-value e = let off : (e.flags - e.flags % 2) % 2 ≡ 0 = omega arith in rw off refl

free_aligned_lem :
    (fuel new n d page : ℕ) (s s0 : Pager)
    → n < 2 ^ 20
    → page < 2 ^ 20
    → Found (s.tables d (n / 1024)) (s.tables (s.tables d (n / 1024)).address) (n % 1024) page
    → virt_to_phys s.tables (n * page_size) d ≡ page * page_size
    → pager_fill fuel new (page * page_size) (page * page_size + (page_size - 1)) s ≡ returns s0
    → free_aligned fuel new (n * page_size) d s
      ≡ returns (record s0 {
        tables =
            set_entry
              (s.tables d (n / 1024)).address
              (n % 1024)
              (cleared (s0.tables (s.tables d (n / 1024)).address (n % 1024)))
              s0.tables;
      })
unfolding free_aligned unmap_entry
free_aligned_lem fuel new n d page s s0 n_in page_in found phys filled =
    let pde_here = found.pde_here in
    let pte_here = found.pte_here in
    let at_i : n * page_size / 2 ^ 22 % 1024 ≡ n / 1024 = omega arith in
    let at_j : n * page_size / 2 ^ 12 % 1024 ≡ n % 1024 = omega arith in
    let last : add32 (page * page_size) (page_size - 1) ≡ page * page_size + (page_size - 1) =
      omega arith in
    rw phys (rw at_i (rw at_j (rw pde_here (rw pte_here (rw last (rw filled refl))))))

-- `free_page` of a page that is mapped unmaps it and no other, and the page of memory is free then,
-- with all that was. Its range lies between two free blocks, as `pager_fill` wants it.
pub free_page-Filled :
    (fuel new n d page : ℕ) (s : Pager) (pre : List ℕ) (b c : ℕ) (post : List ℕ)
    → n < 2 ^ 20
    → page < 2 ^ 20
    → Separate (s.tables d) d s.page_tables_end
    → lookup s.tables d n ≡ some page
    → FillPlace s fuel new pre b c post (page * page_size) (page * page_size + (page_size - 1))
    → (s1 : Pager) × (free_page fuel new (n * page_size) d s ≡ returns s1)
      × ((m : ℕ) → m < 2 ^ 20 → lookup s1.tables d m ≡ put n none (lookup s.tables d) m)
      × Filled s.blocks s1.blocks 0 s1.first_pager_block
          (pre ++ b ∷ c ∷ post)
          (page * page_size)
          (page * page_size + (page_size - 1))
unfolding free_page
free_page-Filled fuel new n d page s pre b c post n_in page_in sep found place =
    let i = n / 1024 in
    let j = n % 1024 in
    let pde = s.tables d i in
    let f = look_in-Found pde (s.tables pde.address) j page found in
    let pde_here = f.pde_here in
    let pte_here = f.pte_here in
    let address = f.address in
    let (s0, filled, tables, result) =
      pager_fill-Filled fuel new s pre b c post (page * page_size)
        (page * page_size + (page_size - 1)) place in
    let gone = cleared (s.tables pde.address j) in
    let unmapped : Tables → Tables =
      λ ts. set_entry pde.address j (cleared (ts pde.address j)) ts in
    let s1 : Pager = record s0 { tables = unmapped s0.tables } in
    let aligned : align_page (n * page_size) ≡ n * page_size = omega arith in
    let whole : j + i * 1024 ≡ n = omega arith in
    let phys : virt_to_phys s.tables (n * page_size) d ≡ page * page_size =
      virt_to_phys-lookup s.tables d (n * page_size) (omega arith)
      ∙ (let at_n : n * page_size / page_size ≡ n = omega arith in
          let start : n * page_size % page_size ≡ 0 = omega arith in
          rw at_n (rw found (rw start (omega arith)))) in
    (
      s1,
      ap (λ v. free_aligned fuel new v d s) aligned
          ∙ free_aligned_lem fuel new n d page s s0 n_in page_in f phys filled,
      λ m m_in.
          ap (λ ts. lookup (unmapped ts) d m) tables
          ∙ (present_put-lookup s.tables d s.page_tables_end i j sep (omega arith) pde_here gone m
                m_in (omega arith)
              ∙ ap₂ (λ k v. put k v (lookup s.tables d) m) whole
                  (cleared-value (s.tables pde.address j))),
      result,
    )
