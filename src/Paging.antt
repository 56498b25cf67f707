-- ===== src/Paging.antt =====
-- kernel/pager.c: page tables, and the list of the free blocks of physical memory. A table lies on
-- a page, so a pointer to one is the number of its page, as the entries keep it.
mod Bits
pub mod Search
pub mod Blocks
pub mod Fill
pub mod NewPage
pub mod Apart
pub mod Maps
pub mod Remove
pub mod Gap
pub mod Walk
pub mod FreePage
mod Tests
use bitloader.Prelude.{
  Bool, Option, bit_or, if◌then◌else◌, ltb, none, not, some, suc, zero, ℕ, ◌%◌, ◌&&◌, ◌*◌, ◌+◌, ◌-◌,
  ◌/◌, ◌==◌, ◌^◌,
}
use bitloader.Prelude.Run.{Run, fault, out_of_fuel, returns, ◌>>=◌}
use bitloader.Prelude.Words.{add32, sub32}

abbrev pub table_entries_length : ℕ
table_entries_length = 1024

abbrev pub page_size : ℕ
page_size = 4096

abbrev pub pager_error : ℕ
pager_error = 0xffff_ffff

abbrev pub page_present : ℕ
page_present = 1

abbrev pub page_writeable : ℕ
page_writeable = 2

abbrev pub page_write_through : ℕ
page_write_through = 8

-- `PDEEntry` and `PTEEntry` are laid out alike: the 12 low bits are the flags, and the 20 high bits
-- are the page of a page table or of memory.
pub record Entry : Type 0 where
  pub flags : ℕ
  pub address : ℕ

-- The entries of the table on each page.
abbrev pub Tables : Type 0
Tables = ℕ → ℕ → Entry

pub record FreeMemoryBlock : Type 0 where
  pub start : ℕ
  pub end : ℕ
  pub next : ℕ
  pub prev : ℕ

-- The free memory blocks by their addresses. 0 is NULL, and memory too.
abbrev pub FreeBlocks : Type 0
FreeBlocks = ℕ → FreeMemoryBlock

-- `page_tables_end` as a page, `first_pager_block`, and the memory that they point to.
pub record Pager : Type 0 where
  pub tables : Tables
  pub page_tables_end : ℕ
  pub blocks : FreeBlocks
  pub first_pager_block : ℕ

abbrev pub present : Entry → Bool
present e = e.flags % 2 == 1

abbrev pub empty_entry : Entry
empty_entry = record { flags = 0; address = 0 }

abbrev pub set_entry : ℕ → ℕ → Entry → Tables → Tables
set_entry t i e tables u j = if u == t && j == i then e else tables u j

abbrev pub pde_index : ℕ → ℕ
pde_index virtual_address = virtual_address / 2 ^ 22 % 1024

abbrev pub pte_index : ℕ → ℕ
pte_index virtual_address = virtual_address / 2 ^ 12 % 1024

unfoldable pub virt_to_phys : Tables → ℕ → ℕ → ℕ
virt_to_phys tables virtual_address table =
    let pde = tables table (pde_index virtual_address) in
    let pte = tables pde.address (pte_index virtual_address) in
    if not (present pde)
    then pager_error
    else if not (present pte)
    then pager_error
    else pte.address * 2 ^ 12 + virtual_address % 2 ^ 12

-- The first of the `left` entries from `j` on that is not present.
unfoldable pub free_entry : (ℕ → Entry) → ℕ → ℕ → Option ℕ
free_entry entries zero j = none
free_entry entries (suc left) j =
    let rest = free_entry entries left (j + 1) in if not (present (entries j)) then some j else rest

-- The outer loop, with `left` entries of the table left from `i` on.
unfoldable pub free_index_loop : Tables → ℕ → ℕ → ℕ → ℕ
free_index_loop tables table zero i = pager_error
free_index_loop tables table (suc left) i =
    let rest = free_index_loop tables table left (i + 1) in
    let sub_table = tables (tables table i).address in
    if not (present (tables table i))
    then i * table_entries_length
    else elim (free_entry sub_table table_entries_length 0) [
      | none ↦ rest
      | some j ↦ j + i * table_entries_length
    ]

unfoldable pub get_free_page_index : Tables → ℕ → ℕ
get_free_page_index tables table = free_index_loop tables table table_entries_length 0

-- The new table's page, and the pager after it.
unfoldable pub alloc_table : Pager → ℕ × Pager
alloc_table s = (s.page_tables_end, record s { page_tables_end = (s.page_tables_end + 1) % 2 ^ 20 })

-- `none` is PAGER_ERROR, where the table is at NULL.
unfoldable pub create_new_table : Pager → Option (ℕ × Pager)
unfolding alloc_table
create_new_table s =
    let (new_table, s1) = alloc_table s in
    let cleared : Tables = λ u j. if u == new_table then empty_entry else s1.tables u j in
    if new_table == 0 then none else some (new_table, record s1 { tables = cleared })

-- `memcpy` of the first entries.
pub soft_copy_table : ℕ → ℕ → Pager → Option (ℕ × Pager)
soft_copy_table table number_of_entries s = elim (create_new_table s) [
  | none ↦ none
  | some (new_table, s1) ↦
      let copied : Tables = λ u j.
        if u == new_table && ltb j number_of_entries then s1.tables table j else s1.tables u j in
      some (new_table, record s1 { tables = copied })
]

abbrev pub store_block : ℕ → FreeMemoryBlock → FreeBlocks → FreeBlocks
store_block p b blocks q = if q == p then b else blocks q

-- The range `start` to `end` goes out of the block: with all of it, at its start, at its end, or
-- from its middle, where a new block takes the rest.
unfoldable pub remove_all : (entry : ℕ) → Pager → Pager
remove_all entry s =
    let first = (s.blocks entry).next in
    let b = record (s.blocks first) { prev = 0 } in
    record s { blocks = store_block first b s.blocks; first_pager_block = first }

unfoldable pub remove_start : (entry end : ℕ) → Pager → Pager
remove_start entry end s =
    let b = record (s.blocks entry) { start = add32 end 1 } in
    record s { blocks = store_block entry b s.blocks }

unfoldable pub remove_end : (entry start : ℕ) → Pager → Pager
remove_end entry start s =
    let b = record (s.blocks entry) { end = sub32 start 1 } in
    record s { blocks = store_block entry b s.blocks }

unfoldable pub remove_inner : (new entry start end : ℕ) → Pager → Pager
remove_inner new entry start end s =
    let e = s.blocks entry in
    let rest : FreeMemoryBlock = record {
      start = add32 end 1;
      end = e.end;
      next = e.next;
      prev = entry;
    } in
    let b = record e { end = sub32 start 1; next = new } in
    record s { blocks = store_block entry b (store_block new rest s.blocks) }

-- `new` is the address that `malloc` gives; where it is NULL, the kernel exits.
unfoldable pub pager_remove : (new entry start end : ℕ) → Pager → Run Pager
pager_remove new entry start end s =
    let e = s.blocks entry in
    if start == e.start && end == e.end
    then returns (remove_all entry s)
    else if start == e.start
    then returns (remove_start entry end s)
    else if end == e.end
    then returns (remove_end entry start s)
    else if new == 0
    then fault
    else returns (remove_inner new entry start end s)

-- The loop of `pager_fill`, which no NULL ends.
unfoldable pub fill_place : ℕ → FreeBlocks → ℕ → ℕ → Run ℕ
fill_place zero blocks start entry = out_of_fuel
fill_place (suc fuel) blocks start entry =
    let rest = fill_place fuel blocks start (blocks entry).next in
    if ltb (blocks entry).start start then rest else returns entry

-- The new block between `before` and `after`.
unfoldable pub fill_between : (new before after start end : ℕ) → Pager → Pager
fill_between new before after start end s =
    let b0 =
      store_block new (record { start = start; end = end; next = after; prev = before }) s.blocks in
    let b1 =
      if before == 0 then b0 else store_block before (record (b0 before) { next = new }) b0 in
    let b2 = if after == 0 then b1 else store_block after (record (b1 after) { prev = new }) b1 in
    record s {
      blocks = b2;
      first_pager_block = if after == s.first_pager_block then new else s.first_pager_block;
    }

unfoldable pub fill_at : (new entry start end : ℕ) → Pager → Run Pager
fill_at new entry start end s =
    let before = (s.blocks entry).prev in
    let b = s.blocks before in
    let a = s.blocks entry in
    if add32 b.end 1 == start && not (before == 0)
    then returns (record s { blocks = store_block before (record b { end = end }) s.blocks })
    else if sub32 a.start 1 == end && not (entry == 0)
    then returns (record s { blocks = store_block entry (record a { start = start }) s.blocks })
    else if new == 0
    then fault
    else returns (fill_between new before entry start end s)

pub pager_fill : (fuel new start end : ℕ) → Pager → Run Pager
unfolding fill_place fill_at
pager_fill fuel new start end s =
    fill_place fuel s.blocks start s.first_pager_block >>= λ entry. fill_at new entry start end s

-- The free memory is one block, at the address that `malloc` gives.
pub init_pager : ℕ → Pager → Run Pager
init_pager new s =
    let all : FreeMemoryBlock = record { start = 0; end = 0xffff_ffff; next = 0; prev = 0 } in
    if new == 0
    then fault
    else returns (record s { blocks = store_block new all s.blocks; first_pager_block = new })

-- Rounded up to a page.
abbrev pub align_page : ℕ → ℕ
align_page a = add32 a (page_size - 1) / page_size * page_size

-- The first free page, or the one asked for, is removed from the first free block.
unfoldable pub take_page : (new physical_address : ℕ) → Pager → Run (ℕ × Pager)
unfolding pager_remove
take_page new physical_address s =
    let entry = s.first_pager_block in
    let page =
      if physical_address == pager_error
      then (s.blocks entry).start
      else align_page physical_address in
    pager_remove new entry page (add32 page (page_size - 1)) s >>= λ s1. returns (page, s1)

abbrev pub enable : ℕ → ℕ → ℕ
enable old flags =
    bit_or (bit_or old (page_present + page_writeable + page_write_through)) (flags % page_size)

-- The page table of the entry `i` of the directory on the page `t`, made where it is not present.
unfoldable pub page_table : (t i flags : ℕ) → Pager → Run (ℕ × Pager)
unfolding create_new_table
page_table t i flags s =
    if present (s.tables t i)
    then returns ((s.tables t i).address, s)
    else elim (create_new_table s) [
      | none ↦ fault
      | some (pte_table, s1) ↦
          let made : Entry = record {
            flags = enable (s1.tables t i).flags flags;
            address = pte_table;
          } in
          returns (pte_table, record s1 { tables = set_entry t i made s1.tables })
    ]

-- The flags are put in after the address: those past the 12 bits change it.
abbrev pub page_entry : (old physical_address flags : ℕ) → Entry
page_entry old physical_address flags = record {
  flags = enable old flags;
  address = bit_or (physical_address / page_size) (flags / page_size);
}

-- The entry of the page `index` is put in the page table that `made` gives.
abbrev pub put_page : (index physical_address flags : ℕ) → ℕ × Pager → Run (ℕ × Pager)
put_page index physical_address flags made =
    let i = index / table_entries_length in
    let j = index % table_entries_length in
    let s1 = made.1 in
    let e = page_entry (s1.tables made.0 j).flags physical_address flags in
    returns (
      bit_or (i * 2 ^ 22 % 2 ^ 32) (j * 2 ^ 12),
      record s1 { tables = set_entry made.0 j e s1.tables },
    )

-- An index past the directory is an entry of a later page.
unfoldable pub map_page : (physical_address pde_table flags : ℕ) → Pager → Run (ℕ × Pager)
map_page physical_address pde_table flags s =
    let index = get_free_page_index s.tables pde_table in
    let i = index / table_entries_length in
    page_table ((pde_table + i / table_entries_length) % 2 ^ 20) (i % table_entries_length) flags s
    >>= put_page index physical_address flags

pub new_page : (new physical_address pde_table flags : ℕ) → Pager → Run (ℕ × Pager)
unfolding take_page map_page
new_page new physical_address pde_table flags s =
    take_page new physical_address s >>= λ taken. map_page taken.0 pde_table flags taken.1

abbrev pub cleared : Entry → Entry
cleared e = record e { flags = e.flags - e.flags % 2 }

-- The page goes back to the free memory, and the entry `j` of the table `t` is not present then.
unfoldable pub unmap_entry : (fuel new t j page : ℕ) → Pager → Run Pager
unmap_entry fuel new t j page s = pager_fill fuel new page (add32 page (page_size - 1)) s >>= λ s1.
    returns (record s1 { tables = set_entry t j (cleared (s1.tables t j)) s1.tables })

-- An entry that is not present is left as it is.
unfoldable pub free_aligned : (fuel new v pde_table : ℕ) → Pager → Run Pager
free_aligned fuel new v pde_table s =
    let pde = s.tables pde_table (pde_index v) in
    let pte = s.tables pde.address (pte_index v) in
    let page = virt_to_phys s.tables v pde_table in
    if not (present pde)
    then returns s
    else if not (present pte)
    then returns s
    else unmap_entry fuel new pde.address (pte_index v) page s

pub free_page : (fuel new virtual_address pde_table : ℕ) → Pager → Run Pager
free_page fuel new virtual_address pde_table s =
    free_aligned fuel new (align_page virtual_address) pde_table s

module _ (fuel : ℕ) where
  -- `new j` is what `malloc` gives in the round `j`.
  unfoldable pub free_pages : (new : ℕ → ℕ) (table : ℕ → Entry) (left j : ℕ) → Pager → Run Pager
  free_pages new table zero j s = returns s
  free_pages new table (suc left) j s =
      let page = (table j).address * page_size in
      let filled = pager_fill fuel (new j) page (add32 page (page_size - 1)) s in
      let freed = if present (table j) then filled else returns s in
      freed >>= free_pages new table left (j + 1)

  -- The table is not freed itself.
  abbrev pub free_pte_table : (new : ℕ → ℕ) (table : ℕ) → Pager → Run Pager
  free_pte_table new table s = free_pages new (s.tables table) table_entries_length 0 s

  unfoldable pub free_tables :
      (new : ℕ → ℕ → ℕ) (table : ℕ → Entry) (left i : ℕ) → Pager → Run Pager
  free_tables new table zero i s = returns s
  free_tables new table (suc left) i s =
      let filled = free_pte_table (new i) (table i).address s in
      let freed = if present (table i) then filled else returns s in
      freed >>= free_tables new table left (i + 1)

  pub free_pde_table : (new : ℕ → ℕ → ℕ) (table : ℕ) → Pager → Run Pager
  free_pde_table new table s = free_tables new (s.tables table) table_entries_length 0 s
