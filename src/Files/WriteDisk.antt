-- ===== src/Files/WriteDisk.antt =====
-- kernel/filesystem/estros-fs.c: what `fs_write` puts on the disk.
use bitloader.Prelude.{
  Bool-cases, ap, arith, false, if◌then◌else◌, inl, inr, ltb, refl, suc, sym, true, zero, ℕ, ◌%◌,
  ◌*◌, ◌+◌, ◌/◌, ◌<◌, ◌==◌, ◌^◌, ◌∙◌, ◌≡◌, ◌≢◌, ◌≤◌,
}
use bitloader.Files.{
  FileSystem, alloc_if_zero, block_size, make_block, make_direct, no_block, num_direct_blocks,
  place, set_ptr, write_block, write_loop,
}
use bitloader.Files.OpenFile.{Memory, block_at, blocks_of}

alloc-disk : (e : ℕ) (fs : FileSystem) → (alloc_if_zero e fs).1.disk ≡ fs.disk
unfolding alloc_if_zero
alloc-disk e fs = elim (Bool-cases (e == 0)) [ inl z ↦ rw z refl | inr nz ↦ rw nz refl ]

-- The writing of the blocks of a buffer that are left.
abbrev pub left : Memory → ℕ → (ℕ → ℕ) → (pos i : ℕ) → FileSystem → (ℕ → ℕ) × FileSystem
left bytes count blocks pos i fs = write_loop (blocks_of bytes count) blocks pos i fs

left-none :
    (bytes : Memory) (blocks : ℕ → ℕ) (pos i : ℕ) (fs : FileSystem)
    → left bytes 0 blocks pos i fs ≡ (blocks, fs)
unfolding write_loop
left-none bytes blocks pos i fs = refl

-- The first of them, which is a direct one.
module _ (bytes : Memory) (count : ℕ) (blocks : ℕ → ℕ) (pos i : ℕ) (fs : FileSystem) where
  abbrev at : ℕ
  at = pos / block_size + i

  abbrev real : ℕ × FileSystem
  real = alloc_if_zero (blocks at) fs

  abbrev entries : ℕ → ℕ
  entries = set_ptr at real.0 blocks

  abbrev kept : FileSystem
  kept = record real.1 { disk = write_block real.0 (block_at bytes 0) real.1.disk }

  abbrev later : (ℕ → ℕ) × FileSystem
  later = left (λ o. bytes (o + block_size)) count entries pos (i + 1) kept

  write_first :
      at < num_direct_blocks
      → pos < 2 ^ 31
      → left bytes (suc count) blocks pos i fs
        ≡ (if no_block real.0 then (entries, real.1) else later)
  unfolding write_loop make_block make_direct
  write_first direct small =
      let here : (pos + i * block_size) % 2 ^ 32 / block_size ≡ at = omega arith in
      let low : ltb at num_direct_blocks ≡ true = ground arith in rw here (rw low refl)

  entries_here : entries at ≡ real.0
  entries_here = let same : (at == at) ≡ true = ground arith in rw same refl

  entries_before : (j : ℕ) → j < at → entries j ≡ blocks j
  entries_before j before = let other : (j == at) ≡ false = ground arith in rw other refl

-- The entries of the blocks before stay.
left-before :
    (bytes : Memory) (count : ℕ) (blocks : ℕ → ℕ) (pos i : ℕ) (fs : FileSystem) (j : ℕ)
    → pos / block_size + (i + count) ≤ num_direct_blocks
    → j < pos / block_size + i
    → (left bytes count blocks pos i fs).0 j ≡ blocks j
left-before bytes zero blocks pos i fs j direct before =
    ap (λ r. r.0 j) (left-none bytes blocks pos i fs)
left-before bytes (suc count) blocks pos i fs j direct before =
    let first = write_first bytes count blocks pos i fs (omega arith) (omega arith) in
    let stays = entries_before bytes count blocks pos i fs j before in
    let rest =
      left-before (λ o. bytes (o + block_size)) count (entries bytes count blocks pos i fs) pos
        (i + 1) (kept bytes count blocks pos i fs) j (omega arith) (omega arith) in
    ap (λ r. r.0 j) first ∙ elim (Bool-cases (no_block (real bytes count blocks pos i fs).0)) [
      | inl stop ↦ rw stop stays
      | inr go ↦ rw go (rest ∙ stays)
    ]

-- The first block is written, and the others then, where its entry is a block's in the end.
record WritesOne (bytes : Memory) (count : ℕ) (blocks : ℕ → ℕ) (pos i : ℕ) (fs : FileSystem)
    : Type 0 where
  goes_on : left bytes (suc count) blocks pos i fs ≡ later bytes count blocks pos i fs
  entry :
      (left bytes (suc count) blocks pos i fs).0 (pos / block_size + i)
      ≡ (real bytes count blocks pos i fs).0

first_block :
    (bytes : Memory) (count : ℕ) (blocks : ℕ → ℕ) (pos i : ℕ) (fs : FileSystem)
    → pos / block_size + (i + suc count) ≤ num_direct_blocks
    → no_block ((left bytes (suc count) blocks pos i fs).0 (pos / block_size + i)) ≡ false
    → WritesOne bytes count blocks pos i fs
first_block bytes count blocks pos i fs direct there =
    let first = write_first bytes count blocks pos i fs (omega arith) (omega arith) in
    let here = entries_here bytes count blocks pos i fs in
    let a = pos / block_size + i in
    let rest =
      left-before (λ o. bytes (o + block_size)) count (entries bytes count blocks pos i fs) pos
        (i + 1) (kept bytes count blocks pos i fs) a (omega arith) (omega arith) in
    elim (Bool-cases (no_block (real bytes count blocks pos i fs).0)) [
      | inl stop ↦
          let ended : (left bytes (suc count) blocks pos i fs).0 a
              ≡ (real bytes count blocks pos i fs).0 =
            ap (λ r. r.0 a) first ∙ rw stop here in
          let clash : false ≡ true = sym there ∙ ap no_block ended ∙ stop in
          absurd (ground (arith, clash))
      | inr go ↦
          let on : left bytes (suc count) blocks pos i fs ≡ later bytes count blocks pos i fs =
            first ∙ rw go refl in
          record { goes_on = on; entry = ap (λ r. r.0 a) on ∙ rest ∙ here }
    ]

-- The entries are blocks, at places that are all different.
pub record Placed (entries : ℕ → ℕ) (first count : ℕ) : Type 0 where
  pub there : (k : ℕ) → k < count → no_block (entries (first + k)) ≡ false
  pub apart :
      (j k : ℕ) → j < k → k < count → place (entries (first + j)) ≢ place (entries (first + k))

Placed-rest :
    (entries : ℕ → ℕ) (first next count : ℕ)
    → first + 1 ≡ next
    → Placed entries first (suc count)
    → Placed entries next count
Placed-rest entries first next count step p = record {
  there = λ k k_in.
      let at : first + suc k ≡ next + k = omega arith in rw at at (p.there (suc k) (omega arith));
  apart = λ j k before k_in.
      let at_j : first + suc j ≡ next + j = omega arith in
      let at_k : first + suc k ≡ next + k = omega arith in
      rw at_j at (rw at_k at (p.apart (suc j) (suc k) (omega arith) (omega arith)));
}

-- A block of the disk that is none of those that are written stays.
left-others :
    (bytes : Memory) (count : ℕ) (blocks : ℕ → ℕ) (pos i : ℕ) (fs : FileSystem) (q w : ℕ)
    → pos / block_size + (i + count) ≤ num_direct_blocks
    → ((k : ℕ)
        → k < count
        → no_block ((left bytes count blocks pos i fs).0 (pos / block_size + i + k)) ≡ false)
    → ((k : ℕ)
        → k < count
        → q ≢ place ((left bytes count blocks pos i fs).0 (pos / block_size + i + k)))
    → (left bytes count blocks pos i fs).1.disk q w ≡ fs.disk q w
left-others bytes zero blocks pos i fs q w direct there other =
    ap (λ r. r.1.disk q w) (left-none bytes blocks pos i fs)
left-others bytes (suc count) blocks pos i fs q w direct there other =
    let a = pos / block_size + i in
    let at_0 : a + 0 ≡ a = omega arith in
    let f = first_block bytes count blocks pos i fs direct (rw at_0 at (there 0 (omega arith))) in
    let on = f.goes_on in
    let differs : q ≢ place (real bytes count blocks pos i fs).0 =
      λ same. other 0 (omega arith) (rw at_0 (same ∙ ap place (sym (f.entry)))) in
    let not_here : (q == place (real bytes count blocks pos i fs).0) ≡ false = ground arith in
    let next : (k : ℕ) → a + suc k ≡ pos / block_size + (i + 1) + k = λ k. omega arith in
    let rest =
      left-others (λ o. bytes (o + block_size)) count (entries bytes count blocks pos i fs) pos
        (i + 1) (kept bytes count blocks pos i fs) q w (omega arith)
        (λ k k_in. rw (← on) (rw (next k) at (there (suc k) (omega arith))))
        (λ k k_in. rw (← on) (rw (next k) at (other (suc k) (omega arith)))) in
    ap (λ r. r.1.disk q w) on ∙ rest ∙ rw not_here (ap (λ d. d q w) (alloc-disk (blocks a) fs))

block_at-shift :
    (bytes : Memory) (k w : ℕ)
    → block_at (λ o. bytes (o + block_size)) k w ≡ block_at bytes (suc k) w
block_at-shift bytes k w =
    let at_0 : k * block_size + w * 4 + block_size ≡ suc k * block_size + w * 4 = omega arith in
    let at_1 : k * block_size + w * 4 + 1 + block_size ≡ suc k * block_size + w * 4 + 1 =
      omega arith in
    let at_2 : k * block_size + w * 4 + 2 + block_size ≡ suc k * block_size + w * 4 + 2 =
      omega arith in
    let at_3 : k * block_size + w * 4 + 3 + block_size ≡ suc k * block_size + w * 4 + 3 =
      omega arith in
    rw at_0 (rw at_1 (rw at_2 (rw at_3 refl)))

-- The blocks of the buffer are on the disk where the entries say.
pub left-written :
    (bytes : Memory) (count : ℕ) (blocks : ℕ → ℕ) (pos i : ℕ) (fs : FileSystem) (k w : ℕ)
    → pos / block_size + (i + count) ≤ num_direct_blocks
    → Placed (left bytes count blocks pos i fs).0 (pos / block_size + i) count
    → k < count
    → (left bytes count blocks pos i fs).1.disk
        (place ((left bytes count blocks pos i fs).0 (pos / block_size + i + k)))
        w
      ≡ block_at bytes k w
left-written bytes zero blocks pos i fs k w direct placed k_in = absurd (omega arith)
left-written bytes (suc count) blocks pos i fs zero w direct placed k_in =
    let a = pos / block_size + i in
    let real_block = (real bytes count blocks pos i fs).0 in
    let at_0 : a + 0 ≡ a = omega arith in
    let f =
      first_block bytes count blocks pos i fs direct (rw at_0 at (placed.there 0 (omega arith))) in
    let on = f.goes_on in
    let entry = f.entry in
    let next : (k : ℕ) → a + suc k ≡ pos / block_size + (i + 1) + k = λ k. omega arith in
    let here : (place real_block == place real_block) ≡ true = ground arith in
    let rest =
      left-others (λ o. bytes (o + block_size)) count (entries bytes count blocks pos i fs) pos
        (i + 1) (kept bytes count blocks pos i fs) (place real_block) w (omega arith)
        (λ j j_in. rw (← on) (rw (next j) at (placed.there (suc j) (omega arith))))
        (λ j j_in same.
          placed.apart 0 (suc j) (omega arith) (omega arith)
            (rw at_0 (ap place entry ∙ rw (next j) (rw on same)))) in
    rw at_0 (
      ap (λ q. (left bytes (suc count) blocks pos i fs).1.disk (place q) w) entry
      ∙ ap (λ r. r.1.disk (place real_block) w) on
      ∙ rest
      ∙ rw here refl)
left-written bytes (suc count) blocks pos i fs (suc k) w direct placed k_in =
    let a = pos / block_size + i in
    let at_0 : a + 0 ≡ a = omega arith in
    let f =
      first_block bytes count blocks pos i fs direct (rw at_0 at (placed.there 0 (omega arith))) in
    let on = f.goes_on in
    let next : a + suc k ≡ pos / block_size + (i + 1) + k = omega arith in
    let step : a + 1 ≡ pos / block_size + (i + 1) = omega arith in
    let tail : Placed (later bytes count blocks pos i fs).0 (pos / block_size + (i + 1)) count =
      rw (← on) (
        Placed-rest (left bytes (suc count) blocks pos i fs).0 a (pos / block_size + (i + 1)) count
          step placed) in
    rw next (
      ap (λ r. r.1.disk (place (r.0 (pos / block_size + (i + 1) + k))) w) on
      ∙ left-written (λ o. bytes (o + block_size)) count (entries bytes count blocks pos i fs) pos
          (i + 1) (kept bytes count blocks pos i fs) k w (omega arith) tail (omega arith)
      ∙ block_at-shift bytes k w)
