-- ===== src/Files/Directory/Walk.antt =====
-- kernel/filesystem/estros-fs.c: the walk of a path from directory to directory.
use bitloader.Prelude.{
  List, Option, [], ap, ap₂, arith, drop, false, if◌then◌else◌, length, none, not, refl, some, suc,
  take, true, zero, ℕ, ◌&&◌, ◌++◌, ◌+◌, ◌<◌, ◌==◌, ◌∙◌, ◌∷◌, ◌≡◌, ◌≢◌, ◌≤◌,
}
use bitloader.Prelude.Run.{Run, returns}
use bitloader.Files.{Disk, FileSystem}
use bitloader.Files.Inodes.{fetch_inode}
use bitloader.Files.Directory.{
  EntryBytes, directory, fetch_inode_directory, first_slash, resolve_entries, resolve_inode_number,
  resolve_loop, resolve_next, resolve_part, skip_slashes,
}
use bitloader.Files.Directory.Search.{IsName, Listed, Named, number_of, search_entries-number_of}

-- The inode is a directory of the entries.
pub record IsDirectory (disk : Disk) (fuel n : ℕ) (list : List Named) : Type 0 where
  pub type : (fetch_inode n disk).type ≡ directory
  pub entries : EntryBytes
  pub fetched : fetch_inode_directory (fetch_inode n disk) disk ≡ some entries
  pub listed : Listed entries 0 list
  pub enough : length list < fuel

-- What the names lead to from the inode `n`: an inode, or nothing at the first name that is not in
-- its directory.
pub data Leads (disk : Disk) (fuel : ℕ) : ℕ → List (List ℕ) → Option ℕ → Type 0 where
  at_last :
      (n : ℕ) (name : List ℕ) (list : List Named)
      → IsDirectory disk fuel n list
      → Leads disk fuel n (name ∷ []) (number_of name list)
  missing :
      (n : ℕ) (name next : List ℕ) (names : List (List ℕ)) (list : List Named)
      → IsDirectory disk fuel n list
      → number_of name list ≡ none
      → Leads disk fuel n (name ∷ next ∷ names) none
  onwards :
      (n m : ℕ) (name next : List ℕ) (names : List (List ℕ)) (list : List Named) {r : Option ℕ}
      → IsDirectory disk fuel n list
      → number_of name list ≡ some m
      → Leads disk fuel m (next ∷ names) r
      → Leads disk fuel n (name ∷ next ∷ names) r

abbrev pub NoSlashes : List ℕ → Type 0
NoSlashes [] = Unit
NoSlashes (c ∷ cs) = (c ≢ b'/') × NoSlashes cs

-- Names of files: not empty, without NUL and '/'.
abbrev pub AllNames : List (List ℕ) → Type 0
AllNames [] = Unit
AllNames (name ∷ names) = IsName name × NoSlashes name × AllNames names

-- The names with '/' between them.
abbrev pub join : List (List ℕ) → List ℕ
join [] = []
join (name ∷ []) = name
join (name ∷ next ∷ names) = name ++ b'/' ∷ join (next ∷ names)

no_slash : (name : List ℕ) (i : ℕ) → NoSlashes name → first_slash name i ≡ 0
unfolding first_slash
no_slash [] i none_in = refl
no_slash (c ∷ name) i none_in =
    let head = none_in.0 in
    let other : (c == b'/') ≡ false = ground arith in rw other (no_slash name (i + 1) none_in.1)

slash_after :
    (name rest : List ℕ) (i : ℕ)
    → NoSlashes name
    → first_slash (name ++ b'/' ∷ rest) i ≡ i + length name
unfolding first_slash
slash_after [] rest i none_in = omega arith
slash_after (c ∷ name) rest i none_in =
    let head = none_in.0 in
    let other : (c == b'/') ≡ false = ground arith in
    rw other (slash_after name rest (i + 1) none_in.1 ∙ omega arith)

take-name : (name rest : List ℕ) → take (length name) (name ++ rest) ≡ name
take-name [] rest = refl
take-name (c ∷ name) rest = ap (λ cs. c ∷ cs) (take-name name rest)

drop-name : (name rest : List ℕ) (c : ℕ) → drop (suc (length name)) (name ++ c ∷ rest) ≡ rest
drop-name [] rest c = refl
drop-name (d ∷ name) rest c = drop-name name rest c

some_length : (name : List ℕ) → IsName name → length name ≢ 0
some_length [] is_name = absurd is_name
some_length (c ∷ name) is_name = λ e. absurd (omega (arith, e))

part_of :
    (disk : Disk) (fuel offset n : ℕ) (path name : List ℕ) (list : List Named)
    → IsDirectory disk fuel n list
    → IsName name
    → (if offset == 0 then path else take offset path) ≡ name
    → resolve_part fuel offset path (fetch_inode n disk) disk ≡ returns (number_of name list)
unfolding resolve_part resolve_entries
part_of disk fuel offset n path name list dir is_name cut =
    let inode = fetch_inode n disk in
    let found =
      search_entries-number_of fuel dir.entries 0 name list dir.listed is_name dir.enough in
    let is_dir : (inode.type == directory) ≡ true = let t = dir.type in rw t refl in
    let more : (not (offset == 0) && not (inode.type == directory)) ≡ false = ground arith in
    ap₂ (resolve_entries fuel offset inode.type) cut dir.fetched ∙ rw more found

ends : (again : ℕ → Run (Option ℕ)) (r : Option ℕ) → resolve_next again 0 r ≡ returns r
unfolding resolve_next
ends again none = refl
ends again (some n) = refl

-- The last name of a path.
last_part :
    (disk : Disk) (rounds fuel n : ℕ) (name : List ℕ) (list : List Named)
    → IsDirectory disk fuel n list
    → IsName name
    → NoSlashes name
    → resolve_loop (suc rounds) fuel name (fetch_inode n disk) disk ≡ returns (number_of name list)
unfolding resolve_loop
last_part disk rounds fuel n name list dir is_name none_in =
    let at = no_slash name 0 none_in in
    let step = part_of disk fuel 0 n name name list dir is_name refl in
    rw at (
      rw step (
        ends (λ m. resolve_loop rounds fuel (drop (0 + 1) name) (fetch_inode m disk) disk)
          (number_of name list)))

cut_name :
    (name rest : List ℕ) (n : ℕ)
    → n ≡ length name
    → IsName name
    → (if n == 0 then name ++ rest else take n (name ++ rest)) ≡ name
cut_name [] rest n same is_name = absurd is_name
cut_name (c ∷ name) rest n same is_name =
    let more : (n == 0) ≡ false = ground arith in
    rw more (ap (λ k. take k (c ∷ name ++ rest)) same ∙ take-name (c ∷ name) rest)

-- A name with more of the path behind it.
next_part :
    (disk : Disk) (rounds fuel n : ℕ) (name rest : List ℕ) (list : List Named)
    → IsDirectory disk fuel n list
    → IsName name
    → NoSlashes name
    → resolve_loop (suc rounds) fuel (name ++ b'/' ∷ rest) (fetch_inode n disk) disk
      ≡ resolve_next
          (λ m. resolve_loop rounds fuel rest (fetch_inode m disk) disk)
          (length name)
          (number_of name list)
unfolding resolve_loop
next_part disk rounds fuel n name rest list dir is_name none_in =
    let path = name ++ b'/' ∷ rest in
    let at : first_slash path 0 ≡ length name = slash_after name rest 0 none_in ∙ omega arith in
    let cut = cut_name name (b'/' ∷ rest) (length name) refl is_name in
    let step = part_of disk fuel (length name) n path name list dir is_name cut in
    let size : length name + 1 ≡ suc (length name) = omega arith in
    let dropped : drop (length name + 1) path ≡ rest =
      ap (λ k. drop k path) size ∙ drop-name name rest b'/' in
    let again : List ℕ → ℕ → Run (Option ℕ) =
      λ cs m. resolve_loop rounds fuel cs (fetch_inode m disk) disk in
    rw at (rw step (ap (λ cs. resolve_next (again cs) (length name) (number_of name list)) dropped))

goes_on :
    (again : ℕ → Run (Option ℕ)) (name : List ℕ) (m : ℕ)
    → IsName name
    → resolve_next again (length name) (some m) ≡ again m
unfolding resolve_next
goes_on again [] m is_name = absurd is_name
goes_on again (c ∷ name) m is_name =
    let more : (suc (length name) == 0) ≡ false = ground arith in rw more refl

stops : (again : ℕ → Run (Option ℕ)) (offset : ℕ) → resolve_next again offset none ≡ returns none
unfolding resolve_next
stops again offset = refl

loop-Leads :
    (disk : Disk) (rounds fuel n : ℕ) (names : List (List ℕ)) (r : Option ℕ)
    → Leads disk fuel n names r
    → AllNames names
    → length names ≤ rounds
    → resolve_loop rounds fuel (join names) (fetch_inode n disk) disk ≡ returns r
loop-Leads disk zero fuel n names r (at_last _ name list dir) all enough = absurd (omega arith)
loop-Leads disk zero fuel n names r (missing _ name next rest list dir unlisted) all enough =
    absurd (omega arith)
loop-Leads disk zero fuel n names r (onwards _ m name next rest list dir found leads) all enough =
    absurd (omega arith)
loop-Leads disk (suc rounds) fuel n names r (at_last _ name list dir) (is_name, none_in, all)
      enough =
    last_part disk rounds fuel n name list dir is_name none_in
loop-Leads disk (suc rounds) fuel n names r (missing _ name next rest list dir unlisted)
      (is_name, none_in, all) enough =
    let again : ℕ → Run (Option ℕ) =
      λ m. resolve_loop rounds fuel (join (next ∷ rest)) (fetch_inode m disk) disk in
    next_part disk rounds fuel n name (join (next ∷ rest)) list dir is_name none_in
    ∙ ap (resolve_next again (length name)) unlisted
    ∙ stops again (length name)
loop-Leads disk (suc rounds) fuel n names r (onwards _ m name next rest list dir found leads)
      (is_name, none_in, all) enough =
    let again : ℕ → Run (Option ℕ) =
      λ m. resolve_loop rounds fuel (join (next ∷ rest)) (fetch_inode m disk) disk in
    next_part disk rounds fuel n name (join (next ∷ rest)) list dir is_name none_in
    ∙ ap (resolve_next again (length name)) found
    ∙ goes_on again name m is_name
    ∙ loop-Leads disk rounds fuel m (next ∷ rest) r leads all (omega arith)

-- A path that starts with a name starts with no '/', and is not empty.
first_name :
    (names : List (List ℕ))
    → length names ≢ 0
    → AllNames names
    → (skip_slashes (join names) ≡ join names) × (length (join names) ≢ 0)
first_name [] some_name all = absurd (some_name refl)
first_name ([] ∷ names) some_name all = absurd (all.0)
first_name ((c ∷ cs) ∷ []) some_name (is_name, none_in, all) =
    let head = none_in.0 in
    let other : (c == b'/') ≡ false = ground arith in
    (rw other refl, λ e. absurd (omega (arith, e)))
first_name ((c ∷ cs) ∷ next ∷ names) some_name (is_name, none_in, all) =
    let head = none_in.0 in
    let other : (c == b'/') ≡ false = ground arith in
    (rw other refl, λ e. absurd (omega (arith, e)))

Leads-some :
    (disk : Disk) (fuel n : ℕ) (names : List (List ℕ)) (r : Option ℕ)
    → Leads disk fuel n names r
    → length names ≢ 0
Leads-some disk fuel n names r (at_last _ name list dir) = λ e. absurd (omega (arith, e))
Leads-some disk fuel n names r (missing _ name next rest list dir unlisted) =
    λ e. absurd (omega (arith, e))
Leads-some disk fuel n names r (onwards _ m name next rest list dir found leads) =
    λ e. absurd (omega (arith, e))

-- A path "/name/.../name" from the root leads to the inode that its names lead to, one directory
-- after the other, and to none at the first name that its directory does not list. As many rounds as there are
-- names are enough.
pub resolve_inode_number-Leads :
    (fs : FileSystem) (rounds fuel : ℕ) (names : List (List ℕ)) (r : Option ℕ)
    → Leads fs.disk fuel fs.root_inode names r
    → AllNames names
    → length names ≤ rounds
    → resolve_inode_number rounds fuel (b'/' ∷ join names) fs ≡ returns r
unfolding resolve_inode_number
resolve_inode_number-Leads fs rounds fuel names r leads all enough =
    let first = first_name names (Leads-some fs.disk fuel fs.root_inode names r leads) all in
    let long = first.1 in
    let some_path : (length (join names) == 0) ≡ false = ground arith in
    let walk = loop-Leads fs.disk rounds fuel fs.root_inode names r leads all enough in
    rw first.0 (rw some_path walk)
