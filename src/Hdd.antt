-- ===== src/Hdd.antt =====
-- kernel/harddrive/hdd.c: the hard disk as a file of sectors, and the numbering of sectors in
-- kernel/harddrive/ata.c. The drive's contents are 512 bytes for each sector number of 28 bits; the
-- drive answers without an error, and `malloc` gives the file's memory.
pub mod Sectors
pub mod Blocks
mod Tests
use bitloader.Prelude.{if◌then◌else◌, leb, ltb, ℕ, ◌%◌, ◌&&◌, ◌*◌, ◌+◌, ◌-◌, ◌/◌, ◌==◌, ◌^◌}
use bitloader.Prelude.Loops.{for_range}
use bitloader.Prelude.Words.{add32}
use bitloader.Files.OpenFile.{Memory, vfs_beg, vfs_cur}

abbrev pub sector_size : ℕ
sector_size = 512

abbrev pub Drive : Type 0
Drive = ℕ → Memory

pub record HddFile : Type 0 where
  pub inode : ℕ
  pub position : ℕ

-- The number that the drive puts together from the four ports.
unfoldable pub ata_address : ℕ → ℕ
ata_address lba =
    let drive = lba / 2 ^ 24 % 16 in
    let low = lba % 256 in
    let mid = lba / 2 ^ 8 % 256 in
    let high = lba / 2 ^ 16 % 256 in drive * 2 ^ 24 + high * 2 ^ 16 + mid * 2 ^ 8 + low

-- 256 words into the buffer from `at` on.
abbrev pub ata_read_sector : (lba : ℕ) → (at : ℕ) → Drive → Memory → Memory
ata_read_sector lba at drive buffer o =
    if leb at o && ltb o (at + sector_size) then drive (ata_address lba) (o - at) else buffer o

abbrev pub ata_write_sector : (lba : ℕ) → (at : ℕ) → Memory → Drive → Drive
ata_write_sector lba at buffer drive sector o =
    if sector == ata_address lba && ltb o sector_size then buffer (at + o) else drive sector o

abbrev pub hdd_open : ℕ → HddFile
hdd_open inode = record { inode = inode; position = 0 }

-- The number of bytes read, and the buffer.
unfoldable pub hdd_read : HddFile → (buffer : Memory) → (buffer_size : ℕ) → Drive → ℕ × Memory
hdd_read file buffer buffer_size drive =
    let n_sectors = buffer_size / sector_size in
    let read : ℕ → Memory → Memory =
      λ i. ata_read_sector (add32 file.position i) (i * sector_size) drive in
    (n_sectors * 512, for_range n_sectors 0 read buffer)

unfoldable pub hdd_write : HddFile → (buffer : Memory) → (buffer_size : ℕ) → Drive → ℕ × Drive
hdd_write file buffer buffer_size drive =
    let n_sectors = buffer_size / sector_size in
    let write : ℕ → Drive → Drive =
      λ i. ata_write_sector (add32 file.position i) (i * sector_size) buffer in
    (n_sectors * 512, for_range n_sectors 0 write drive)

unfoldable pub hdd_seek : (offset whence : ℕ) → HddFile → HddFile
hdd_seek offset whence file =
    let sectors = offset / sector_size in
    if whence == vfs_beg
    then record file { position = sectors }
    else if whence == vfs_cur
    then record file { position = add32 file.position sectors }
    else file

abbrev pub hdd_tell : HddFile → ℕ
hdd_tell file = file.position * 512 % 2 ^ 32
