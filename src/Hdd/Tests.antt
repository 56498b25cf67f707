-- ===== src/Hdd/Tests.antt =====
-- A drive with bytes that differ from sector to sector, and reads and writes of its blocks.
use bitloader.Prelude.{arith, if◌then◌else◌, ltb, refl, ◌%◌, ◌*◌, ◌+◌, ◌==◌, ◌^◌, ◌≡◌}
use bitloader.Files.{block_size, place, read_block}
use bitloader.Files.OpenFile.{Memory, block_byte, vfs_beg, vfs_end}
use bitloader.Hdd.{Drive, HddFile, hdd_open, hdd_read, hdd_seek, hdd_tell, hdd_write}
use bitloader.Hdd.Blocks.{disk_of, hdd_read-read_block, hdd_write-write_block}

abbrev striped : Drive
striped sector o = (sector + o) % 256

abbrev ones : Memory
ones o = 1

abbrev opened : HddFile
opened = hdd_open 7

hdd_read-read_block_example :
    (hdd_read (hdd_seek (3 * block_size % 2 ^ 32) vfs_beg opened) ones block_size striped).1 700
    ≡ (if ltb 700 block_size then block_byte (read_block (disk_of striped) 3) 700 else ones 700)
hdd_read-read_block_example =
    hdd_read-read_block striped opened 3 ones 700 (λ sector o below. omega arith)

hdd_write-write_block_example :
    let written =
      (hdd_write (hdd_seek (3 * block_size % 2 ^ 32) vfs_beg opened) ones block_size striped).1 in
    block_byte (read_block (disk_of written) 3) 700
    ≡ (if place 3 == place 3 then ones 700 else block_byte (read_block (disk_of striped) 3) 700)
hdd_write-write_block_example =
    hdd_write-write_block striped opened 3 3 ones 700 (λ sector o below. omega arith)
      (λ o below. omega arith) (omega arith)

-- A read of a size that is no multiple of 512 leaves the last bytes out.
short_read : (hdd_read opened ones 1000 striped).0 ≡ 512
unfolding hdd_read
short_read = refl

-- From the end nothing is sought, and a seek within a sector goes to its start.
end_stays : (hdd_seek 5120 vfs_end opened).position ≡ 0
unfolding hdd_seek
end_stays = refl

tell_after : hdd_tell (hdd_seek 700 vfs_beg opened) ≡ 512
unfolding hdd_seek
tell_after = refl
