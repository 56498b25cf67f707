-- ===== src/Vfs/Paths.antt =====
-- kernel/filesystem/virtual-filesystem.c: how a path is taken apart.
use bitloader.Prelude.{
  Bool-cases, [], ap, arith, drop, get_or, inl, inr, leb, length, refl, suc, sym, take, true, zero,
  ℕ, ◌++◌, ◌+◌, ◌-◌, ◌<◌, ◌==◌, ◌∙◌, ◌∷◌, ◌≡◌, ◌≢◌, ◌≤◌,
}
use bitloader.Vfs.{
  Driver, HashMap, Path8, S, directory_of, is_file_path, last_slash, name_of,
  vfs_create_regular_file, vfs_regular_file,
}

-- No character of it is '/'.
abbrev pub NoSlash : Path8 → Type 0
NoSlash name = (j : ℕ) → get_or name j 0 ≢ b'/'

get_or-drop : (path : Path8) (n j : ℕ) → get_or (drop n path) j 0 ≡ get_or path (n + j) 0
get_or-drop path zero j = let same : j ≡ 0 + j = omega arith in ap (λ k. get_or path k 0) same
get_or-drop [] (suc n) j = refl
get_or-drop (c ∷ path) (suc n) j =
    let same : suc (n + j) ≡ suc n + j = omega arith in
    get_or-drop path n j ∙ ap (λ k. get_or (c ∷ path) k 0) same

length-drop : (path : Path8) (n : ℕ) → length (drop n path) ≡ length path - n
length-drop path zero = omega arith
length-drop [] (suc n) = omega arith
length-drop (c ∷ path) (suc n) = omega (arith, length-drop path n)

cut_at :
    (path : Path8) (n : ℕ)
    → n < length path
    → path ≡ take n path ++ get_or path n 0 ∷ drop (suc n) path
cut_at [] n small = absurd (omega arith)
cut_at (c ∷ path) zero small = refl
cut_at (c ∷ path) (suc n) small = ap (λ p. c ∷ p) (cut_at path n (omega arith))

-- The place that the search finds: '/' stands there, and none behind it.
record LastSlash (path : Path8) (at top : ℕ) : Type 0 where
  within : at ≤ top
  slash : get_or path at 0 ≡ b'/'
  none_after : (j : ℕ) → at < j → j ≤ top → get_or path j 0 ≢ b'/'

last_slash-LastSlash :
    (path : Path8) (top : ℕ) → get_or path 0 0 ≡ b'/' → LastSlash path (last_slash path top) top
unfolding last_slash
last_slash-LastSlash path zero root = record {
  within = omega arith;
  slash = root;
  none_after = λ j low high. absurd (omega arith);
}
last_slash-LastSlash path (suc top) root = elim (Bool-cases (get_or path (suc top) 0 == b'/')) [
  | inl here ↦ rw here record {
    within = omega arith;
    slash = ground arith;
    none_after = λ j low high. absurd (omega arith);
  }
  | inr other ↦
      let below = last_slash-LastSlash path top root in
      let in_top = below.within in
      rw other record {
        within = omega arith;
        slash = below.slash;
        none_after = λ j low high. elim (Bool-cases (j == suc top)) [
          | inl at_top ↦
              let eq : j ≡ suc top = ground arith in
              λ e. absurd (ground (arith, ap (λ k. get_or path k 0) eq))
          | inr inner ↦ below.none_after j low (ground arith)
        ];
      }
]

past_end : (path : Path8) (n : ℕ) → length path ≤ n → get_or path n 0 ≡ 0
past_end [] n out = refl
past_end (c ∷ path) zero out = absurd (omega arith)
past_end (c ∷ path) (suc n) out = past_end path n (omega arith)

-- The path of a file is its directory, a '/' and its name, which is not empty and has no '/'.
pub is_file_path-parts :
    (path : Path8)
    → is_file_path path ≡ true
    → (path ≡ directory_of path ++ b'/' ∷ name_of path)
      × (0 < length (name_of path))
      × NoSlash (name_of path)
is_file_path-parts path file =
    let root : get_or path 0 0 ≡ b'/' = ground arith in
    let no_end : get_or path (length path - 1) 0 ≢ b'/' = ground arith in
    let at = last_slash path (length path) in
    let found = last_slash-LastSlash path (length path) root in
    let slash = found.slash in
    let here : (n : ℕ) → length path ≤ n → get_or path n 0 ≢ b'/' =
      λ n out e. absurd (omega (arith, past_end path n out, e)) in
    let not_past : at ≢ length path = λ e. here at (omega (arith, e)) slash in
    let not_last : at ≢ length path - 1 = λ e. no_end (sym (ap (λ k. get_or path k 0) e) ∙ slash) in
    let within = found.within in
    let inside : at < length path = omega (arith, not_past) in
    (
      cut_at path at inside ∙ ap (λ c. directory_of path ++ c ∷ name_of path) slash,
      omega (arith, length-drop path (suc at), not_last),
      λ j e.
          let at_j = sym (get_or-drop path (suc at) j) ∙ e in
          elim (Bool-cases (leb (suc at + j) (length path))) [
            | inl inner ↦ found.none_after (suc at + j) (omega arith) (ground arith) at_j
            | inr outer ↦ here (suc at + j) (ground arith) at_j
          ],
    )

-- A file of the path `directory/name` that has no node yet is made by the driver, in the directory
-- and under the name; what the driver returns is returned. The name is not empty and has no '/'.
pub vfs_create_regular_file-parts :
    (h : HashMap) (d : Driver) (path : Path8) (s : S h d)
    → is_file_path path ≡ true
    → h.get s.hashmap path ≡ 0
    → (directory : Path8) × (name : Path8) × (path ≡ directory ++ b'/' ∷ name)
      × (0 < length name)
      × NoSlash name
      × (vfs_create_regular_file h d path s ≡ (
          let made = d.create_inode directory name vfs_regular_file s.driver in
          (made.0, record s { driver = made.1 })))
unfolding vfs_create_regular_file
vfs_create_regular_file-parts h d path s file unknown =
    let parts = is_file_path-parts path file in
    (directory_of path, name_of path, parts.0, parts.1, parts.2, rw file (rw unknown refl))
