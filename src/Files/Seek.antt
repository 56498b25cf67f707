-- ===== src/Files/Seek.antt =====
-- kernel/filesystem/estros-fs.c: where `fs_seek` leaves the position.
use bitloader.Prelude.{arith, inl, inr, ℕ, ◌+◌, ◌-◌, ◌<◌, ◌^◌, ◌≡◌, ◌≤◌, ◌⊎◌}
use bitloader.Prelude.Words.{add32}
use bitloader.Files.OpenFile.{FsFile, FsNode, fs_seek, vfs_beg, vfs_cur, vfs_end}

-- Where each kind of seek stays inside the file.
abbrev pub SeekRange : FsNode → ℕ → ℕ → FsFile → Type 0
SeekRange node offset whence file =
    (whence ≡ vfs_beg)
    ⊎ (((whence ≡ vfs_cur) × (offset + file.position < node.size - 1))
        ⊎ ((whence ≡ vfs_end) × (1 ≤ offset) × (offset ≤ node.size)))

-- A seek from the beginning, one forwards that ends before the last byte, and one of 1 to all the
-- bytes back from the end leave the position inside a file that is not empty.
pub fs_seek-below :
    (node : FsNode) (offset whence : ℕ) (file : FsFile)
    → 0 < node.size
    → node.size < 2 ^ 32
    → SeekRange node offset whence file
    → (fs_seek node offset whence file).position < node.size
unfolding fs_seek
fs_seek-below node offset whence file some_size small (inl beg) = rw beg (ground arith)
fs_seek-below node offset whence file some_size small (inr (inl (cur, before))) =
    let moved : add32 offset file.position ≡ offset + file.position = omega arith in
    rw cur (rw moved (ground arith))
fs_seek-below node offset whence file some_size small (inr (inr (end, some_offset, within))) =
    rw end (ground arith)
