-- ===== src/Paging/Tests.antt =====
-- A directory, the free blocks around a page, and a range above all of them.
use bitloader.Prelude.{
  Option, [], arith, if◌then◌else◌, none, refl, some, ℕ, ◌&&◌, ◌*◌, ◌+◌, ◌-◌, ◌/◌, ◌<◌, ◌==◌, ◌^◌,
  ◌∷◌, ◌≡◌,
}
use bitloader.Prelude.Run.{out_of_fuel, returns}
use bitloader.Paging.{
  FreeMemoryBlock, Pager, align_page, alloc_table, create_new_table, empty_entry, free_index_loop,
  free_page, get_free_page_index, new_page, page_size, pager_fill, pager_remove, remove_inner,
  soft_copy_table, take_page,
}
use bitloader.Paging.Blocks.{Chain}
use bitloader.Paging.Search.{FirstFree, get_free_page_index-FirstFree}
use bitloader.Paging.NewPage.{Separate, lookup, put}
use bitloader.Paging.Maps.{PageMapped, new_page-PageMapped, taken_page}
use bitloader.Paging.Remove.{Removed, pager_remove-Removed}
use bitloader.Paging.Fill.{Filled}
use bitloader.Paging.Walk.{FillPlace, pager_fill-Filled, pager_fill-endless}
use bitloader.Paging.FreePage.{free_page-Filled}

abbrev no_block : FreeMemoryBlock
no_block = record { start = 0; end = 0; next = 0; prev = 0 }

-- The state after `init_pager`, with an empty directory on the page 0x300.
abbrev fresh : Pager
fresh = record {
  tables = λ t i. empty_entry;
  page_tables_end = 0x301;
  blocks =
      λ p. if p == 8 then record { start = 0; end = 0xffff_ffff; next = 0; prev = 0 } else no_block;
  first_pager_block = 8;
}

nothing_mapped : Separate (fresh.tables 0x300) 0x300 0x301
nothing_mapped = record {
  below = omega arith;
  own = λ k k_in there. absurd (ground arith);
  known = λ k k_in there. absurd (ground arith);
  apart = λ k l k_in l_in there. absurd (ground arith);
}

fresh_index : get_free_page_index fresh.tables 0x300 ≡ 0
unfolding get_free_page_index free_index_loop
fresh_index = refl

get_free_page_index-FirstFree_example :
    FirstFree fresh.tables 0x300 (get_free_page_index fresh.tables 0x300)
get_free_page_index-FirstFree_example = get_free_page_index-FirstFree fresh.tables 0x300

fresh-Chain : Chain fresh.blocks 0 8 (8 ∷ [])
fresh-Chain = (refl, (λ e. absurd (omega arith)), omega arith, omega arith, omega arith, refl)

new_page-PageMapped_example :
    (s1 : Pager) × (new_page 9 0xffff_ffff 0x300 3 fresh
      ≡ returns (get_free_page_index fresh.tables 0x300 * page_size, s1))
    × PageMapped fresh 0x300
        (get_free_page_index fresh.tables 0x300)
        (taken_page 0xffff_ffff fresh / page_size)
        s1
    × Removed fresh
        (8 ∷ [])
        (taken_page 0xffff_ffff fresh)
        (taken_page 0xffff_ffff fresh + (page_size - 1))
        s1
new_page-PageMapped_example =
    new_page-PageMapped 9 0xffff_ffff 0x300 3 fresh 0 8 [] fresh-Chain (omega arith) (omega arith)
      (λ e. absurd (omega arith)) ((λ e. absurd (omega arith)), tt) (omega arith) nothing_mapped
      (omega (arith, fresh_index)) (omega arith)

pager_remove-Removed_example :
    (s1 : Pager) × (pager_remove 9 8 0x1000 0x1fff fresh ≡ returns s1)
    × Removed fresh (8 ∷ []) 0x1000 0x1fff s1
pager_remove-Removed_example =
    pager_remove-Removed fresh 0 8 [] 9 0x1000 0x1fff fresh-Chain (omega arith) (omega arith)
      (omega arith) (λ e. absurd (omega arith)) ((λ e. absurd (omega arith)), tt)

-- The page 0 of the addresses is mapped to the page 2 of memory, which is not free.
abbrev used : Pager
used = record {
  tables = λ t i.
      if t == 0x300 && i == 0
      then record { flags = 3; address = 0x301 }
      else if t == 0x301 && i == 0
      then record { flags = 3; address = 2 }
      else empty_entry;
  page_tables_end = 0x302;
  blocks = λ p.
      if p == 8
      then record { start = 0; end = 0xfff; next = 9; prev = 0 }
      else if p == 9
      then record { start = 0x4000; end = 0xffff_ffff; next = 0; prev = 8 }
      else no_block;
  first_pager_block = 8;
}

used_place : FillPlace used 2 10 [] 8 9 [] 0x2000 0x2fff
used_place = record {
  chain = (
    refl,
    (λ e. absurd (omega arith)),
    omega arith,
    omega arith,
    omega arith,
    (refl, (λ e. absurd (omega arith)), omega arith, omega arith, omega arith, refl),
  );
  below = tt;
  link = refl;
  order = omega arith;
  after_b = omega arith;
  before_c = omega arith;
  there = λ e. absurd (omega arith);
  out = ((λ e. absurd (omega arith)), ((λ e. absurd (omega arith)), tt));
  enough = omega arith;
}

used_Separate : Separate (used.tables 0x300) 0x300 0x302
used_Separate = record {
  below = omega arith;
  own = λ k k_in there same. ground arith;
  known = λ k k_in there. ground arith;
  apart = λ k l k_in l_in there there1 same. ground arith;
}

pager_fill-Filled_example :
    (s1 : Pager) × (pager_fill 2 10 0x2000 0x2fff used ≡ returns s1)
    × (s1.tables ≡ used.tables)
    × Filled used.blocks s1.blocks 0 s1.first_pager_block (8 ∷ 9 ∷ []) 0x2000 0x2fff
pager_fill-Filled_example = pager_fill-Filled 2 10 used [] 8 9 [] 0x2000 0x2fff used_place

free_page-Filled_example :
    (s1 : Pager) × (free_page 2 10 (0 * page_size) 0x300 used ≡ returns s1)
    × ((m : ℕ) → m < 2 ^ 20 → lookup s1.tables 0x300 m ≡ put 0 none (lookup used.tables 0x300) m)
    × Filled used.blocks s1.blocks 0 s1.first_pager_block
        (8 ∷ 9 ∷ [])
        (2 * page_size)
        (2 * page_size + (page_size - 1))
free_page-Filled_example =
    free_page-Filled 2 10 0 0x300 2 used [] 8 9 [] (omega arith) (omega arith) used_Separate refl
      used_place

abbrev small : Pager
small = record used {
  blocks = λ p. if p == 8 then record { start = 0; end = 0xfff; next = 0; prev = 0 } else no_block;
}

pager_fill-endless_example : pager_fill 100 9 0x5000 0x5fff small ≡ out_of_fuel
pager_fill-endless_example =
    pager_fill-endless 100 9 small (8 ∷ []) 0x5000 0x5fff
      (refl, (λ e. absurd (omega arith)), omega arith, omega arith, omega arith, refl)
      (omega arith, tt) (omega arith) refl

-- A block is split at its middle: the block after it still has the old one before it.
prev_is_stale : ((remove_inner 10 8 0x100 0x1ff used).blocks 9).prev ≡ 8
unfolding remove_inner
prev_is_stale = refl

-- The 256th table starts where the tables' memory ends, and the next one is past it.
past_the_limit : (alloc_table (record fresh { page_tables_end = 0x400 })).0 ≡ 0x400
unfolding alloc_table
past_the_limit = refl

-- A page that is asked for and that no free block has is mapped all the same.
not_free : take_page 10 0x2000 used ≡ returns (0x2000, remove_inner 10 8 0x2000 0x2fff used)
unfolding take_page pager_remove
not_free = refl

-- The address is rounded up: the page that is freed is the next one.
rounds_up : align_page 0x1234 ≡ 0x2000
rounds_up = refl

abbrev first_flags : Option (ℕ × Pager) → ℕ × ℕ
first_flags none = (0, 0)
first_flags (some r) = ((r.1.tables r.0 0).flags, (r.1.tables r.0 1).flags)

-- `memcpy` of the first entries.
copies : first_flags (soft_copy_table 0x301 1 used) ≡ (3, 0)
unfolding soft_copy_table create_new_table alloc_table
copies = refl
