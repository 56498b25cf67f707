-- ===== src/Files/RoundTrip.antt =====
-- A block that kernel/filesystem/estros-fs.c writes is the block that it finds and loads again.
use bitloader.Prelude.{
  Bool-cases, List, [], ap, arith, false, if◌then◌else◌, inl, inr, ltb, refl, some, sym, true, ℕ,
  ◌%◌, ◌*◌, ◌+◌, ◌-◌, ◌/◌, ◌<◌, ◌==◌, ◌^◌, ◌∙◌, ◌∷◌, ◌≡◌, ◌≢◌,
}
use bitloader.Files.{
  Block, Disk, FileSystem, Made, alloc_if_zero, alloc_ptr, block_size, double_indirect_index,
  find_block, find_double, find_single, harddrive_load_blocks, harddrive_write_blocks, load_loop,
  make_block, make_direct, make_double, make_single, no_block, num_direct_blocks, place,
  ptrs_per_block, read_block, set_ptr, single_indirect_index, write_block, write_loop,
}

-- The pointer blocks on the way to a file's block.
abbrev pub path : (ℕ → ℕ) → ℕ → FileSystem → List ℕ
path blocks block_n fs =
    let a = alloc_if_zero (blocks single_indirect_index) fs in
    let b = alloc_if_zero (blocks double_indirect_index) fs in
    let index = block_n - num_direct_blocks - ptrs_per_block in
    if ltb block_n num_direct_blocks
    then []
    else if ltb block_n (num_direct_blocks + ptrs_per_block)
    then a.0 ∷ []
    else b.0 ∷ (alloc_ptr b.0 (index / ptrs_per_block) b.1).0 ∷ []

-- The places of the blocks are all different.
abbrev pub ApartFrom : ℕ → List ℕ → Type 0
ApartFrom n [] = Unit
ApartFrom n (m ∷ ms) = (place n ≢ place m) × ApartFrom n ms

abbrev pub Apart : List ℕ → Type 0
Apart [] = Unit
Apart (n ∷ ns) = ApartFrom n ns × Apart ns

same_block : (n : ℕ) (b : Block) (disk : Disk) → write_block n b disk (place n) ≡ b
same_block n b disk = let here : (place n == place n) ≡ true = ground arith in rw here refl

same_ptr : (i v : ℕ) (b : ℕ → ℕ) → set_ptr i v b i ≡ v
same_ptr i v b = let here : (i == i) ≡ true = ground arith in rw here refl

write-frame :
    (n : ℕ) (b : Block) (disk : Disk) (m : ℕ)
    → place n ≢ place m
    → read_block (write_block n b disk) m ≡ read_block disk m
write-frame n b disk m apart =
    let other : (place m == place n) ≡ false = ground arith in rw other refl

module _ (block index : ℕ) (fs : FileSystem) where
  alloc_ptr-read :
      read_block (alloc_ptr block index fs).1.disk block index ≡ (alloc_ptr block index fs).0
  unfolding alloc_ptr
  alloc_ptr-read = elim (Bool-cases (read_block fs.disk block index == 0)) [
    | inl missing ↦ rw missing (
        ap (λ c. c index)
          (same_block block (set_ptr index fs.n_blocks (read_block fs.disk block)) fs.disk)
        ∙ same_ptr index fs.n_blocks (read_block fs.disk block))
    | inr there ↦ rw there refl
  ]

  alloc_ptr-frame :
      (m : ℕ)
      → place block ≢ place m
      → read_block (alloc_ptr block index fs).1.disk m ≡ read_block fs.disk m
  unfolding alloc_ptr
  alloc_ptr-frame m apart = elim (Bool-cases (read_block fs.disk block index == 0)) [
    | inl missing ↦
        rw missing
          (write-frame block (set_ptr index fs.n_blocks (read_block fs.disk block)) fs.disk m apart)
    | inr there ↦ rw there refl
  ]

abbrev pub kept : Made → Block → Disk
kept made b = write_block made.0 b made.2.disk

direct-find :
    (blocks : ℕ → ℕ) (n : ℕ) (fs : FileSystem)
    → (make_direct blocks n fs).1 n ≡ (make_direct blocks n fs).0
unfolding make_direct
direct-find blocks n fs = same_ptr n (alloc_if_zero (blocks n) fs).0 blocks

single-find :
    (blocks : ℕ → ℕ) (index : ℕ) (fs : FileSystem) (b : Block)
    → place (make_single blocks index fs).0
      ≢ place (alloc_if_zero (blocks single_indirect_index) fs).0
    → find_single (kept (make_single blocks index fs) b) (make_single blocks index fs).1 index
      ≡ (make_single blocks index fs).0
unfolding make_single find_single
single-find blocks index fs b apart =
    let a = alloc_if_zero (blocks single_indirect_index) fs in
    let c = alloc_ptr a.0 index a.1 in
    ap (λ ptrs. ptrs index) (write-frame c.0 b c.1.disk a.0 apart) ∙ alloc_ptr-read a.0 index a.1

double-find :
    (blocks : ℕ → ℕ) (index : ℕ) (fs : FileSystem) (b : Block)
    → (let a = alloc_if_zero (blocks double_indirect_index) fs in
        Apart (
          (make_double blocks index fs).0
          ∷ a.0
          ∷ (alloc_ptr a.0 (index / ptrs_per_block) a.1).0
          ∷ []))
    → find_double (kept (make_double blocks index fs) b) (make_double blocks index fs).1 index
      ≡ (make_double blocks index fs).0
unfolding make_double find_double
double-find blocks index fs b apart =
    let a = alloc_if_zero (blocks double_indirect_index) fs in
    let p = alloc_ptr a.0 (index / ptrs_per_block) a.1 in
    let c = alloc_ptr p.0 (index % ptrs_per_block) p.1 in
    let disk = write_block c.0 b c.1.disk in
    let second : read_block disk a.0 (index / ptrs_per_block) ≡ p.0 =
      ap (λ ptrs. ptrs (index / ptrs_per_block)) (write-frame c.0 b c.1.disk a.0 apart.0.0)
      ∙ (ap (λ ptrs. ptrs (index / ptrs_per_block))
            (alloc_ptr-frame p.0 (index % ptrs_per_block) p.1 a.0 (λ e. apart.1.0.0 (sym e)))
          ∙ alloc_ptr-read a.0 (index / ptrs_per_block) a.1) in
    ap (λ m. read_block disk m (index % ptrs_per_block)) second
    ∙ (ap (λ ptrs. ptrs (index % ptrs_per_block)) (write-frame c.0 b c.1.disk p.0 apart.0.1.0)
        ∙ alloc_ptr-read p.0 (index % ptrs_per_block) p.1)

path-single :
    (blocks : ℕ → ℕ) (block_n : ℕ) (fs : FileSystem)
    → ltb block_n num_direct_blocks ≡ false
    → ltb block_n (num_direct_blocks + ptrs_per_block) ≡ true
    → Apart ((make_block blocks block_n fs).0 ∷ path blocks block_n fs)
    → place (make_single blocks (block_n - num_direct_blocks) fs).0
      ≢ place (alloc_if_zero (blocks single_indirect_index) fs).0
unfolding make_block
path-single blocks block_n fs rest single apart = (rw rest at (rw single at apart)).0.0

path-double :
    (blocks : ℕ → ℕ) (block_n : ℕ) (fs : FileSystem)
    → ltb block_n num_direct_blocks ≡ false
    → ltb block_n (num_direct_blocks + ptrs_per_block) ≡ false
    → ltb block_n (num_direct_blocks + ptrs_per_block + ptrs_per_block * ptrs_per_block) ≡ true
    → Apart ((make_block blocks block_n fs).0 ∷ path blocks block_n fs)
    → (let index = block_n - num_direct_blocks - ptrs_per_block in
        let a = alloc_if_zero (blocks double_indirect_index) fs in
        Apart (
          (make_double blocks index fs).0
          ∷ a.0
          ∷ (alloc_ptr a.0 (index / ptrs_per_block) a.1).0
          ∷ []))
unfolding make_block
path-double blocks block_n fs rest double in_double apart =
    rw in_double at (rw double at (rw rest at apart))

-- `make_block` makes the block that `find_block` finds, also after that block has been written,
-- where the blocks on the way lie apart. This is below the triple indirect blocks.
make_block-find :
    (blocks : ℕ → ℕ) (block_n : ℕ) (fs : FileSystem) (b : Block)
    → block_n < 65802
    → Apart ((make_block blocks block_n fs).0 ∷ path blocks block_n fs)
    → find_block (kept (make_block blocks block_n fs) b) (make_block blocks block_n fs).1 block_n
      ≡ (make_block blocks block_n fs).0
unfolding make_block find_block
make_block-find blocks block_n fs b small apart =
    elim (Bool-cases (ltb block_n num_direct_blocks)) [
      | inl direct ↦ rw direct (direct-find blocks block_n fs)
      | inr rest ↦ elim (Bool-cases (ltb block_n (num_direct_blocks + ptrs_per_block))) [
        | inl single ↦
            let h = path-single blocks block_n fs rest single apart in
            rw rest (rw single (single-find blocks (block_n - num_direct_blocks) fs b h))
        | inr double ↦
            let in_double : ltb block_n
                  (num_direct_blocks + ptrs_per_block + ptrs_per_block * ptrs_per_block)
                ≡ true =
              ground arith in
            let h = path-double blocks block_n fs rest double in_double apart in
            rw rest (
              rw double (
                rw in_double
                  (double-find blocks (block_n - num_direct_blocks - ptrs_per_block) fs b h)))
      ]
    ]

-- A block that is written at a file position below the triple indirect blocks is the block that is
-- loaded from it: `harddrive_load_blocks` finds after `harddrive_write_blocks` what was written.
-- The block that it goes to is there, and it and the pointer blocks on the way lie apart.
pub write-load :
    (blocks : ℕ → ℕ) (pos : ℕ) (fs : FileSystem) (b : Block)
    → pos < 65802 * block_size
    → no_block (make_block blocks (pos / block_size) fs).0 ≡ false
    → Apart ((make_block blocks (pos / block_size) fs).0 ∷ path blocks (pos / block_size) fs)
    → harddrive_load_blocks
        (harddrive_write_blocks (b ∷ []) blocks pos fs).1.disk
        (harddrive_write_blocks (b ∷ []) blocks pos fs).0
        pos
        1
      ≡ some (b ∷ [])
unfolding harddrive_load_blocks harddrive_write_blocks load_loop write_loop
write-load blocks pos fs b small room apart =
    let at : (pos + 0 * block_size) % 2 ^ 32 / block_size ≡ pos / block_size = ground arith in
    let made = make_block blocks (pos / block_size) fs in
    let found = make_block-find blocks (pos / block_size) fs b (omega arith) apart in
    rw at (rw room (rw found (rw room (ap (λ c. some (c ∷ [])) (same_block made.0 b made.2.disk)))))
