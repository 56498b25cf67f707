-- ===== src/Files/Inodes.antt =====
-- kernel/filesystem/estros-fs.c: the inodes on the disk. A sector holds eight of them, and a block
-- of the disk two sectors.
use bitloader.Prelude.{
  Bool-cases, arith, false, if◌then◌else◌, inl, inr, refl, true, ℕ, ◌%◌, ◌&&◌, ◌*◌, ◌+◌, ◌-◌, ◌/◌,
  ◌<◌, ◌==◌, ◌^◌, ◌∙◌, ◌≡◌,
}
use bitloader.Files.{Disk, block_size}

abbrev pub super_block_offset : ℕ
super_block_offset = 0x10000

abbrev pub inode_size : ℕ
inode_size = 64

abbrev pub block_bp_size : ℕ
block_bp_size = 0xffff_ffff / block_size / 8

abbrev pub inode_bp_size : ℕ
inode_bp_size = 8192 * inode_size / block_size / 8

pub record Inode : Type 0 where
  pub type : ℕ
  pub size : ℕ
  pub blocks : ℕ → ℕ
  pub reserved : ℕ

-- A sector of the harddrive's VFS file, as 128 words.
abbrev pub read_sector : Disk → ℕ → ℕ → ℕ
read_sector disk s w = disk (s / 2) (s % 2 * 128 + w)

abbrev pub write_sector : ℕ → (ℕ → ℕ) → Disk → Disk
write_sector s words disk b w = if b == s / 2 && w / 128 == s % 2 then words (w % 128) else disk b w

unfoldable pub inode_offset : ℕ → ℕ
inode_offset inode_number =
    let sizes = super_block_offset + block_size + block_bp_size + inode_bp_size in
    ((sizes / block_size + 1) * block_size + inode_number * inode_size) % 2 ^ 32

-- `vfs_seek` to the offset goes to the sector that it lies in.
abbrev pub inode_sector : ℕ → ℕ
inode_sector inode_number = inode_offset inode_number / 512

-- The inode's 16 words in memory.
abbrev pub inode_word : Inode → ℕ → ℕ
inode_word inode w =
    if w == 0
    then inode.type
    else if w == 1
    then inode.size
    else if w == 15
    then inode.reserved
    else inode.blocks (w - 2)

unfoldable pub write_inode : Inode → ℕ → Disk → Disk
write_inode inode inode_number disk =
    let buffer = read_sector disk (inode_sector inode_number) in
    let sub_offset = inode_number % 8 in
    let copied : ℕ → ℕ =
      λ w. if w / 16 == sub_offset then inode_word inode (w % 16) else buffer w in
    write_sector (inode_sector inode_number) copied disk

unfoldable pub fetch_inode : ℕ → Disk → Inode
fetch_inode inode_number disk =
    let word : ℕ → ℕ =
      λ w. read_sector disk (inode_sector inode_number) (inode_number % 8 * 16 + w) in
    record { type = word 0; size = word 1; blocks = λ k. word (k + 2); reserved = word 15 }

-- The inodes are the same in the words that they have.
pub record SameInode (a b : Inode) : Type 0 where
  pub type : a.type ≡ b.type
  pub size : a.size ≡ b.size
  pub blocks : (k : ℕ) → k < 13 → a.blocks k ≡ b.blocks k
  pub reserved : a.reserved ≡ b.reserved

sector_of : (n : ℕ) → n < 2 ^ 25 → inode_sector n ≡ 1156 + n / 8
unfolding inode_offset
sector_of n small = omega arith

read-write_sector :
    (s t w : ℕ) (words : ℕ → ℕ) (disk : Disk)
    → w < 128
    → read_sector (write_sector s words disk) t w
      ≡ (if t == s then words w else read_sector disk t w)
read-write_sector s t w words disk w_in =
    let row : (t % 2 * 128 + w) / 128 ≡ t % 2 = omega arith in
    let column : (t % 2 * 128 + w) % 128 ≡ w = omega arith in
    elim (Bool-cases (t == s)) [
      | inl same ↦
          let here : (t / 2 == s / 2 && t % 2 == s % 2) ≡ true = ground arith in
          rw row (rw column (rw same (rw here refl)))
      | inr other ↦
          let elsewhere : (t / 2 == s / 2 && t % 2 == s % 2) ≡ false = ground arith in
          rw row (rw column (rw other (rw elsewhere refl)))
    ]

-- A word of an inode after a write.
word_after :
    (i : Inode) (n m w : ℕ) (disk : Disk)
    → n < 2 ^ 25
    → m < 2 ^ 25
    → w < 16
    → read_sector (write_inode i n disk) (inode_sector m) (m % 8 * 16 + w)
      ≡ (if m == n then inode_word i w else read_sector disk (inode_sector m) (m % 8 * 16 + w))
unfolding write_inode
word_after i n m w disk n_in m_in w_in =
    let buffer = read_sector disk (inode_sector n) in
    let copied : ℕ → ℕ = λ w. if w / 16 == n % 8 then inode_word i (w % 16) else buffer w in
    let at_n = sector_of n n_in in
    let at_m = sector_of m m_in in
    let slot : (m % 8 * 16 + w) / 16 ≡ m % 8 = omega arith in
    let inner : (m % 8 * 16 + w) % 16 ≡ w = omega arith in
    read-write_sector (inode_sector n) (inode_sector m) (m % 8 * 16 + w) copied disk (omega arith)
    ∙ elim (Bool-cases (m == n)) [
      | inl same ↦
          let sectors : (inode_sector m == inode_sector n) ≡ true = ground arith in
          let slots : (m % 8 == n % 8) ≡ true = ground arith in
          rw same (rw sectors (rw slot (rw inner (rw slots refl))))
      | inr other ↦ elim (Bool-cases (inode_sector m == inode_sector n)) [
        | inl sectors ↦
            let slots : (m % 8 == n % 8) ≡ false = ground arith in
            let eq : inode_sector n ≡ inode_sector m = ground arith in
            rw other (rw sectors (rw slot (rw slots (rw eq refl))))
        | inr apart ↦ rw other (rw apart refl)
      ]
    ]

-- An inode that is written is the one that is fetched, and `write_inode` leaves all the others.
pub write_inode-fetch_inode :
    (i : Inode) (n m : ℕ) (disk : Disk)
    → n < 2 ^ 25
    → m < 2 ^ 25
    → SameInode (fetch_inode m (write_inode i n disk)) (if m == n then i else fetch_inode m disk)
unfolding fetch_inode
write_inode-fetch_inode i n m disk n_in m_in = elim (Bool-cases (m == n)) [
  | inl same ↦
      let word : (w : ℕ)
          → w < 16
          → read_sector (write_inode i n disk) (inode_sector m) (m % 8 * 16 + w) ≡ inode_word i w =
        λ w w_in. rw same at (word_after i n m w disk n_in m_in w_in) in
      rw same record {
        type = word 0 (omega arith);
        size = word 1 (omega arith);
        blocks = λ k k_in. word (k + 2) (omega arith) ∙ ground arith;
        reserved = word 15 (omega arith);
      }
  | inr other ↦
      let word : (w : ℕ)
          → w < 16
          → read_sector (write_inode i n disk) (inode_sector m) (m % 8 * 16 + w)
            ≡ read_sector disk (inode_sector m) (m % 8 * 16 + w) =
        λ w w_in. rw other at (word_after i n m w disk n_in m_in w_in) in
      rw other record {
        type = word 0 (omega arith);
        size = word 1 (omega arith);
        blocks = λ k k_in. word (k + 2) (omega arith);
        reserved = word 15 (omega arith);
      }
]

pub write_inode_self :
    (i : Inode) (n : ℕ) (disk : Disk)
    → n < 2 ^ 25
    → SameInode (fetch_inode n (write_inode i n disk)) i
write_inode_self i n disk n_in =
    let same : (n == n) ≡ true = ground arith in
    rw same at (write_inode-fetch_inode i n n disk n_in n_in)
