-- ===== src/Hdd/Sectors.antt =====
-- kernel/harddrive/hdd.c: reading and writing a run of sectors.
use bitloader.Prelude.{
  Bool-cases, ap, ap₂, arith, false, if◌then◌else◌, inl, inr, leb, ltb, refl, true, ℕ, ◌%◌, ◌&&◌,
  ◌*◌, ◌+◌, ◌-◌, ◌/◌, ◌<◌, ◌==◌, ◌^◌, ◌∙◌, ◌≡◌, ◌≤◌,
}
use bitloader.Prelude.Loops.{for_range_inv}
use bitloader.Prelude.Words.{add32}
use bitloader.Files.OpenFile.{Memory}
use bitloader.Hdd.{
  Drive, HddFile, ata_address, ata_read_sector, ata_write_sector, hdd_read, hdd_write,
}

pub ata_address-mod : (lba : ℕ) → ata_address lba ≡ lba % 2 ^ 28
unfolding ata_address
ata_address-mod lba = omega arith

-- The buffer after `i` sectors.
abbrev ReadTo : HddFile → Memory → Drive → ℕ → Memory → Type 0
ReadTo file buffer drive i now =
    (o : ℕ)
    → now o ≡ (
        if ltb o (i * 512)
        then drive (ata_address (add32 file.position (o / 512))) (o % 512)
        else buffer o)

read_step-ReadTo :
    (file : HddFile) (buffer : Memory) (drive : Drive) (i : ℕ) (now : Memory)
    → ReadTo file buffer drive i now
    → ReadTo file buffer drive (i + 1) (ata_read_sector (add32 file.position i) (i * 512) drive now)
read_step-ReadTo file buffer drive i now read o =
    let before = read o in
    elim (Bool-cases (ltb o (i * 512))) [
      | inl old ↦
          let beyond : (leb (i * 512) o && ltb o (i * 512 + 512)) ≡ false = ground arith in
          let still : ltb o ((i + 1) * 512) ≡ true = ground arith in
          rw beyond (rw still (before ∙ rw old refl))
      | inr new ↦ elim (Bool-cases (ltb o (i * 512 + 512))) [
        | inl inside ↦
            let in_sector : (leb (i * 512) o && ltb o (i * 512 + 512)) ≡ true = ground arith in
            let reached : ltb o ((i + 1) * 512) ≡ true = ground arith in
            let sector : i ≡ o / 512 = ground arith in
            let place : o - i * 512 ≡ o % 512 = ground arith in
            rw in_sector
              (rw reached (ap₂ (λ j k. drive (ata_address (add32 file.position j)) k) sector place))
        | inr behind ↦
            let beyond : (leb (i * 512) o && ltb o (i * 512 + 512)) ≡ false = ground arith in
            let later : ltb o ((i + 1) * 512) ≡ false = ground arith in
            rw beyond (rw later (before ∙ rw new refl))
      ]
    ]

-- The buffer's bytes after a read: the drive's, from the position on, and the rest as before.
pub hdd_read-bytes :
    (file : HddFile) (buffer : Memory) (n : ℕ) (drive : Drive) (o : ℕ)
    → (hdd_read file buffer (n * 512) drive).1 o ≡ (
        if ltb o (n * 512)
        then drive (ata_address (add32 file.position (o / 512))) (o % 512)
        else buffer o)
unfolding hdd_read
hdd_read-bytes file buffer n drive o =
    let rounds : n * 512 / 512 ≡ n = omega arith in
    let start : ReadTo file buffer drive 0 buffer =
      λ k. let nothing : ltb k 0 ≡ false = ground arith in rw nothing refl in
    let whole =
      for_range_inv (ReadTo file buffer drive)
        (λ i. ata_read_sector (add32 file.position i) (i * 512) drive) n 0 n buffer (omega arith)
        (λ i now below read. read_step-ReadTo file buffer drive i now read) start in
    rw rounds (whole o)

-- The drive after `i` sectors.
abbrev WrittenTo : HddFile → Memory → Drive → ℕ → Drive → Type 0
WrittenTo file buffer drive i now =
    (sector o : ℕ)
    → o < 512
    → now sector o ≡ (
        if leb file.position sector && ltb sector (file.position + i)
        then buffer ((sector - file.position) * 512 + o)
        else drive sector o)

write_step-WrittenTo :
    (file : HddFile) (buffer : Memory) (drive : Drive) (i : ℕ) (now : Drive)
    → file.position + i < 2 ^ 28
    → WrittenTo file buffer drive i now
    → WrittenTo file buffer drive
        (i + 1)
        (ata_write_sector (add32 file.position i) (i * 512) buffer now)
write_step-WrittenTo file buffer drive i now fits written sector o inside =
    let before = written sector o inside in
    let byte : ltb o 512 ≡ true = ground arith in
    let address : ata_address (add32 file.position i) ≡ file.position + i =
      ata_address-mod (add32 file.position i) ∙ omega arith in
    elim (Bool-cases (sector == file.position + i)) [
      | inl same ↦
          let in_range : (leb file.position sector && ltb sector (file.position + (i + 1))) ≡ true =
            ground arith in
          let from : i * 512 + o ≡ (sector - file.position) * 512 + o = ground arith in
          rw address (rw same (rw byte (rw in_range (ap buffer from))))
      | inr other ↦
          let range : (leb file.position sector && ltb sector (file.position + (i + 1)))
              ≡ (leb file.position sector && ltb sector (file.position + i)) =
            ground arith in
          rw address (rw other (rw range before))
    ]

-- The drive's bytes after a write: the buffer's, from the position on, and the rest as before.
pub hdd_write-bytes :
    (file : HddFile) (buffer : Memory) (n : ℕ) (drive : Drive)
    → file.position + n ≤ 2 ^ 28
    → (sector o : ℕ) → o < 512
    → (hdd_write file buffer (n * 512) drive).1 sector o ≡ (
        if leb file.position sector && ltb sector (file.position + n)
        then buffer ((sector - file.position) * 512 + o)
        else drive sector o)
unfolding hdd_write
hdd_write-bytes file buffer n drive fits =
    let rounds : n * 512 / 512 ≡ n = omega arith in
    let start : WrittenTo file buffer drive 0 drive = λ sector o inside.
      let nothing : (leb file.position sector && ltb sector (file.position + 0)) ≡ false =
        ground arith in
      rw nothing refl in
    let whole =
      for_range_inv (WrittenTo file buffer drive)
        (λ i. ata_write_sector (add32 file.position i) (i * 512) buffer) n 0 n drive (omega arith)
        (λ i now below written. write_step-WrittenTo file buffer drive i now (omega arith) written)
        start in
    rw rounds whole
