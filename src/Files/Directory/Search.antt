-- ===== src/Files/Directory/Search.antt =====
-- kernel/filesystem/estros-fs.c: the search of a directory's entries.
use bitloader.Prelude.{
  Bool-cases, List, Option, [], ap, arith, false, if◌then◌else◌, inl, inr, length, ltb, none, not,
  some, suc, true, zero, ℕ, ◌+◌, ◌<◌, ◌==◌, ◌||◌, ◌∙◌, ◌∷◌, ◌≡◌, ◌≢◌, ◌≤◌,
}
use bitloader.Prelude.Int.{pos, ◌==ℤ◌}
use bitloader.Prelude.Run.{returns}
use bitloader.Strings.{Bytes, literal, strncmp}
use bitloader.Files.Directory.{EntryBytes, entry_size, other_name, search_entries, word_at}
use bitloader.Files.Directory.Names.{HasName, NoNul, literal-HasString, other-same_name, same_name}

-- A name that is not empty, and the number of its inode.
abbrev pub Named : Type 0
Named = List ℕ × ℕ

abbrev pub IsName : List ℕ → Type 0
IsName [] = ⊥
IsName (y ∷ ys) = NoNul (y ∷ ys)

-- The entries from `o` on are those of the list, and the one of length 0.
abbrev pub Listed : EntryBytes → ℕ → List Named → Type 0
Listed e o [] =
    (o + entry_size ≤ e.size) × (word_at e.bytes (o + 4) ≡ 0) × (word_at e.bytes (o + 8) ≡ 0)
Listed e o (entry ∷ rest) =
    (o + entry_size + length entry.0 ≤ e.size)
    × (word_at e.bytes o ≡ entry.1)
    × (word_at e.bytes (o + 4) ≢ 0)
    × (word_at e.bytes (o + 8) ≡ length entry.0)
    × IsName entry.0
    × HasName (λ i. e.bytes (o + entry_size + i)) 0 entry.0
    × Listed e (o + word_at e.bytes (o + 4)) rest

abbrev pub number_of : List ℕ → List Named → Option ℕ
number_of path [] = none
number_of path (entry ∷ rest) = if same_name path entry.0 then some entry.1 else number_of path rest

other_name-same_name :
    (bytes : ℕ → ℕ) (o : ℕ) (path name : List ℕ)
    → word_at bytes (o + 8) ≡ length name
    → IsName name
    → HasName (λ i. bytes (o + entry_size + i)) 0 name
    → NoNul path
    → other_name bytes o path ≡ not (same_name path name)
other_name-same_name bytes o path [] len is_name has no_nul = absurd is_name
other_name-same_name bytes o path (y ∷ ys) len is_name has no_nul =
    let name : Bytes = λ i. bytes (o + entry_size + i) in
    let size : suc (length ys) ≡ length ys + 1 = omega arith in
    ap (λ n. not (strncmp (literal path) name n ==ℤ pos 0) || ltb n (length path)) (len ∙ size)
    ∙ other-same_name (literal path) name path y ys (literal-HasString path) has no_nul is_name

-- A name's inode number is found in a directory, and that there is none where it is not listed: the
-- search looks at each entry once, and compares whole names.
pub search_entries-number_of :
    (fuel : ℕ) (e : EntryBytes) (o : ℕ) (path : List ℕ) (list : List Named)
    → Listed e o list
    → IsName path
    → length list < fuel
    → search_entries fuel e o path ≡ returns (number_of path list)
unfolding search_entries
search_entries-number_of zero e o path list listed is_name enough = absurd (omega arith)
search_entries-number_of (suc fuel) e o [] list listed is_name enough = absurd is_name
search_entries-number_of (suc fuel) e o (c ∷ path) [] (inside, last, unnamed) is_name enough =
    let fits : ltb e.size (o + entry_size) ≡ false = ground arith in
    let longer : ltb 0 (length (c ∷ path)) ≡ true = ground arith in
    rw fits (rw unnamed (rw last (rw longer (ground arith))))
search_entries-number_of (suc fuel) e o (c ∷ path) (entry ∷ rest)
      (inside, number, more, len, named, has, listed) is_name enough =
    let fits : ltb e.size (o + entry_size) ≡ false = ground arith in
    let not_last : (word_at e.bytes (o + 4) == 0) ≡ false = ground arith in
    let test = other_name-same_name e.bytes o (c ∷ path) entry.0 len named has is_name in
    let tail =
      search_entries-number_of fuel e (o + word_at e.bytes (o + 4)) (c ∷ path) rest listed is_name
        (omega arith) in
    elim (Bool-cases (same_name (c ∷ path) entry.0)) [
      | inl same ↦ rw fits (rw test (rw same (ap (λ n. returns (some n)) number)))
      | inr other ↦ rw fits (rw test (rw other (rw not_last tail)))
    ]
