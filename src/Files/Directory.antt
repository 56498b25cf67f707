-- ===== src/Files/Directory.antt =====
-- kernel/filesystem/estros-fs.c: directories, and the walk of a path through them. A path is its
-- characters without the NUL; `malloc` gives the memory for a directory's entries.
pub mod Names
pub mod Search
pub mod Walk
pub mod Listing
pub mod Create
pub mod Refused
mod Tests
use bitloader.Prelude.{
  Bool, List, Option, [], drop, if◌then◌else◌, length, ltb, none, not, some, suc, take, zero, ℕ,
  ◌%◌, ◌&&◌, ◌*◌, ◌++◌, ◌+◌, ◌/◌, ◌==◌, ◌^◌, ◌||◌, ◌∷◌,
}
use bitloader.Prelude.Int.{pos, ◌==ℤ◌}
use bitloader.Prelude.Run.{Run, fault, out_of_fuel, returns, ◌>>=◌}
use bitloader.Strings.{Bytes, literal, strncmp}
use bitloader.Files.{Disk, FileSystem, block_size, place}
use bitloader.Files.Inodes.{Inode, fetch_inode}
use bitloader.Files.OpenFile.{FsNode, Memory, block_byte, fstovfs, vfstofs}

abbrev pub directory : ℕ
directory = 2

-- `sizeof(struct DirectoryEntry)`, without the name.
abbrev pub entry_size : ℕ
entry_size = 12

-- The entries in memory, and how many bytes there are.
pub record EntryBytes : Type 0 where
  pub bytes : Memory
  pub size : ℕ

-- The sectors from the directory's first block on, or NULL for a size of 0.
unfoldable pub fetch_inode_directory : Inode → Disk → Option EntryBytes
fetch_inode_directory inode disk =
    let from : Memory =
      λ o. block_byte (disk (place (inode.blocks 0) + o / block_size)) (o % block_size) in
    let size = (inode.size / 512 + 1) * 512 in
    if inode.size == 0 then none else some (record { bytes = from; size = size })

abbrev pub word_at : Memory → ℕ → ℕ
word_at bytes o = bytes o + bytes (o + 1) * 256 + bytes (o + 2) * 256 ^ 2 + bytes (o + 3) * 256 ^ 3

-- The name at the entry `o` is not the path's: by `strncmp`, or since the path is longer.
abbrev pub other_name : Memory → ℕ → List ℕ → Bool
other_name bytes o path =
    let name_length = word_at bytes (o + 8) in
    let name : Bytes = λ i. bytes (o + entry_size + i) in
    not (strncmp (literal path) name name_length ==ℤ pos 0) || ltb name_length (length path)

-- The inode number of the path's entry. The entries end with one of length 0. A header past the memory is a
-- fault.
unfoldable pub search_entries : (fuel : ℕ) → EntryBytes → (o : ℕ) → List ℕ → Run (Option ℕ)
search_entries zero entries o path = out_of_fuel
search_entries (suc fuel) entries o path =
    let entry_length = word_at entries.bytes (o + 4) in
    let rest = search_entries fuel entries (o + entry_length) path in
    if ltb entries.size (o + entry_size)
    then fault
    else if other_name entries.bytes o path
    then (if entry_length == 0 then returns none else rest)
    else returns (some (word_at entries.bytes o))

-- The place of the first '/' in the characters from `i` on, which `left` are left of; 0 where there
-- is none.
unfoldable pub first_slash : List ℕ → ℕ → ℕ
first_slash [] i = 0
first_slash (c ∷ path) i = let rest = first_slash path (i + 1) in if c == b'/' then i else rest

abbrev pub skip_slashes : List ℕ → List ℕ
skip_slashes [] = []
skip_slashes (c ∷ path) = if c == b'/' then skip_slashes path else c ∷ path

-- The part of the path that is looked for among the entries, NULL where there are none. Only a
-- directory may have more of the path after it.
unfoldable pub resolve_entries :
    (fuel offset type : ℕ) → List ℕ → Option EntryBytes → Run (Option ℕ)
resolve_entries fuel offset type part none = returns none
resolve_entries fuel offset type part (some entries) =
    if not (offset == 0) && not (type == directory)
    then returns none
    else search_entries fuel entries 0 part

-- One round of the walk: the number of the inode that the path's first part names in the directory.
unfoldable pub resolve_part : (fuel offset : ℕ) → List ℕ → Inode → Disk → Run (Option ℕ)
resolve_part fuel offset path inode disk =
    let part = if offset == 0 then path else take offset path in
    resolve_entries fuel offset inode.type part (fetch_inode_directory inode disk)

-- After a round: the walk ends with the last part, or goes on with the rest.
unfoldable pub resolve_next : (again : ℕ → Run (Option ℕ)) (offset : ℕ) → Option ℕ → Run (Option ℕ)
resolve_next again offset none = returns none
resolve_next again offset (some n) = if offset == 0 then returns (some n) else again n

-- `none` is the inode of type 0 in `resolve_inode`, and -1 in `resolve_inode_number`.
unfoldable pub resolve_loop : (rounds fuel : ℕ) → List ℕ → Inode → Disk → Run (Option ℕ)
resolve_loop zero fuel path inode disk = out_of_fuel
resolve_loop (suc rounds) fuel path inode disk =
    let offset = first_slash path 0 in
    let again : ℕ → Run (Option ℕ) =
      λ n. resolve_loop rounds fuel (drop (offset + 1) path) (fetch_inode n disk) disk in
    resolve_part fuel offset path inode disk >>= resolve_next again offset

unfoldable pub resolve_inode_number : (rounds fuel : ℕ) → List ℕ → FileSystem → Run (Option ℕ)
resolve_inode_number rounds fuel path fs =
    let rest = skip_slashes path in
    let found = resolve_loop rounds fuel rest (fetch_inode fs.root_inode fs.disk) fs.disk in
    if length rest == 0 then returns (some fs.root_inode) else found

-- The inode itself, or the one of type 0.
abbrev pub resolve_inode : (rounds fuel : ℕ) → List ℕ → FileSystem → Run Inode
resolve_inode rounds fuel path fs =
    let err : Inode = record { type = 0; size = 0; blocks = λ k. 0; reserved = 0 } in
    resolve_inode_number rounds fuel path fs >>= λ r. elim r [
      | none ↦ returns err
      | some n ↦ returns (fetch_inode n fs.disk)
    ]

abbrev pub get_inode : (rounds fuel : ℕ) → List ℕ → FileSystem → Run FsNode
get_inode rounds fuel path fs = do
  inode ← resolve_inode rounds fuel path fs
  number ← resolve_inode_number rounds fuel path fs
  let error : FsNode = record { type = 0; size = 0; inode_number = 0; blocks = λ k. 0 }
  returns
      (if inode.type == 0 then error else elim number [ none ↦ error | some n ↦ fstovfs inode n ])

-- A directory's entries for the caller: their paths.
pub record VfsDirectory : Type 0 where
  pub inode : FsNode
  pub entries : List (List ℕ)

-- The root's path "/" is not followed by another '/'.
abbrev pub entry_path : (path name : List ℕ) → List ℕ
entry_path path name = if length path == 1 then path ++ name else path ++ b'/' ∷ name

abbrev pub bytes_from : Memory → (o n : ℕ) → List ℕ
bytes_from bytes o zero = []
bytes_from bytes o (suc n) = bytes o ∷ bytes_from bytes (o + 1) n

-- The paths of the entries up to the one of length 0. A header or a name past the memory is a fault.
unfoldable pub list_entries : (fuel : ℕ) → EntryBytes → (o : ℕ) → List ℕ → Run (List (List ℕ))
list_entries zero entries o path = out_of_fuel
list_entries (suc fuel) entries o path =
    let entry_length = word_at entries.bytes (o + 4) in
    let name_length = word_at entries.bytes (o + 8) in
    let name = bytes_from entries.bytes (o + entry_size) name_length in
    let rest = list_entries fuel entries (o + entry_length) path in
    if ltb entries.size (o + entry_size)
    then fault
    else if entry_length == 0
    then returns []
    else if ltb entries.size (o + entry_size + name_length)
    then fault
    else rest >>= λ paths. returns (entry_path path name ∷ paths)

abbrev pub list_fetched : (fuel : ℕ) → Option EntryBytes → List ℕ → Run (List (List ℕ))
list_fetched fuel none path = returns []
list_fetched fuel (some entries) path = list_entries fuel entries 0 path

unfoldable pub get_directory : (fuel : ℕ) → List ℕ → FsNode → Disk → Run (Option VfsDirectory)
get_directory fuel path inode disk =
    let listed = list_fetched fuel (fetch_inode_directory (vfstofs inode) disk) path in
    if not (inode.type == directory)
    then returns none
    else listed >>= λ paths. returns (some (record { inode = inode; entries = paths }))
