-- ===== src/Files/Directory/Tests.antt =====
-- A disk with a directory in a directory, and the walk of paths on it.
use mathlib.Core.Option.{some-injective}
use bitloader.Prelude.{
  List, [], ap, arith, get_or, if◌then◌else◌, none, refl, some, ℕ, ◌%◌, ◌&&◌, ◌+◌, ◌/◌, ◌==◌, ◌||◌,
  ◌∙◌, ◌∷◌, ◌≡◌, ◌≢◌,
}
use bitloader.Files.OpenFile.{FsNode, block_byte, fstovfs}
use bitloader.Prelude.Run.{Run, fault, out_of_fuel, returns}
use bitloader.Files.{
  Disk, FileSystem, block_size, find_block, harddrive_load_blocks, load_loop, place,
}
use bitloader.Strings.{strncmp, strncmp_loop}
use bitloader.Files.Inodes.{fetch_inode, inode_offset}
use bitloader.Files.Directory.{
  EntryBytes, directory, fetch_inode_directory, first_slash, resolve_entries, resolve_inode_number,
  resolve_loop, resolve_next, resolve_part, search_entries, word_at,
}
use bitloader.Files.Directory.Create.{add_entry, create_inode}
use bitloader.Files.Directory.Refused.{create_inode-refused}
use bitloader.Files.Directory.Walk.{
  AllNames, IsDirectory, Leads, at_last, join, onwards, resolve_inode_number-Leads,
}
use bitloader.Files.Directory.Search.{IsName}

abbrev home : List ℕ
home = b'h' ∷ b'o' ∷ b'm' ∷ b'e' ∷ []

abbrev note : List ℕ
note = b'n' ∷ b'o' ∷ b't' ∷ b'e' ∷ []

-- The word `w` of a block that starts with the words.
abbrev word_of : List ℕ → ℕ → ℕ
word_of words w = get_or words w 0

-- An entry of 16 bytes: an inode's number and a name of four characters.
abbrev entry : ℕ → List ℕ → List ℕ
entry number name = number ∷ 16 ∷ 4 ∷ word_at (word_of name) 0 ∷ []

-- The inode 0 is a directory with its entries in the block 90, and the inode 1 one with them in the block 91.
abbrev tree_disk : Disk
tree_disk b w =
    if b == 90
    then word_of (entry 1 home) w
    else if b == 91
    then word_of (entry 2 note) w
    else if b == 578 && w == 0 || b == 578 && w == 16
    then directory
    else if b == 578 && w == 1 || b == 578 && w == 17
    then 16
    else if b == 578 && w == 2
    then 90
    else if b == 578 && w == 18
    then 91
    else 0

abbrev tree : FileSystem
tree = record { disk = tree_disk; n_blocks = 100; n_inodes = 3; root_inode = 0 }

walk_found : resolve_inode_number 2 3 (b'/' ∷ join (home ∷ note ∷ [])) tree ≡ returns (some 2)
unfolding resolve_inode_number resolve_loop resolve_part resolve_entries resolve_next search_entries
    first_slash fetch_inode_directory fetch_inode inode_offset strncmp strncmp_loop
walk_found = refl

walk_missing : resolve_inode_number 2 3 (b'/' ∷ join (note ∷ note ∷ [])) tree ≡ returns none
unfolding resolve_inode_number resolve_loop resolve_part resolve_entries resolve_next search_entries
    first_slash fetch_inode_directory fetch_inode inode_offset strncmp strncmp_loop
walk_missing = refl

abbrev entries_at : ℕ → EntryBytes
entries_at block = record {
  bytes = λ o. block_byte (tree_disk (place block + o / block_size)) (o % block_size);
  size = 512;
}

four : {A B C D : Type 0} → A → B → C → D → A × (B × (C × (D × Unit {0})))
four a b c d = (a, (b, (c, (d, tt))))

home-IsName : IsName home
home-IsName =
    four (λ e. absurd (omega (arith, e))) (λ e. absurd (omega (arith, e)))
      (λ e. absurd (omega (arith, e))) (λ e. absurd (omega (arith, e)))

note-IsName : IsName note
note-IsName =
    four (λ e. absurd (omega (arith, e))) (λ e. absurd (omega (arith, e)))
      (λ e. absurd (omega (arith, e))) (λ e. absurd (omega (arith, e)))

root-IsDirectory : IsDirectory tree_disk 3 0 ((home, 1) ∷ [])
unfolding fetch_inode_directory fetch_inode inode_offset
root-IsDirectory = record {
  type = refl;
  entries = entries_at 90;
  fetched = refl;
  listed = (
    omega arith,
    refl,
    (λ e. absurd (omega (arith, e))),
    refl,
    home-IsName,
    four refl refl refl refl,
    (omega arith, refl, refl),
  );
  enough = omega arith;
}

home-IsDirectory : IsDirectory tree_disk 3 1 ((note, 2) ∷ [])
unfolding fetch_inode_directory fetch_inode inode_offset
home-IsDirectory = record {
  type = refl;
  entries = entries_at 91;
  fetched = refl;
  listed = (
    omega arith,
    refl,
    (λ e. absurd (omega (arith, e))),
    refl,
    note-IsName,
    four refl refl refl refl,
    (omega arith, refl, refl),
  );
  enough = omega arith;
}

home-note-Leads : Leads tree_disk 3 0 (home ∷ note ∷ []) (some 2)
home-note-Leads =
    onwards 0 1 home note [] ((home, 1) ∷ []) root-IsDirectory refl
      (at_last 1 note ((note, 2) ∷ []) home-IsDirectory)

home-note-AllNames : AllNames (home ∷ note ∷ [])
home-note-AllNames = (
  home-IsName,
  four (λ e. absurd (omega (arith, e))) (λ e. absurd (omega (arith, e)))
      (λ e. absurd (omega (arith, e))) (λ e. absurd (omega (arith, e))),
  (
    note-IsName,
    four (λ e. absurd (omega (arith, e))) (λ e. absurd (omega (arith, e)))
        (λ e. absurd (omega (arith, e))) (λ e. absurd (omega (arith, e))),
    tt,
  ),
)

resolve_inode_number-Leads_example :
    resolve_inode_number 2 3 (b'/' ∷ join (home ∷ note ∷ [])) tree ≡ returns (some 2)
resolve_inode_number-Leads_example =
    resolve_inode_number-Leads tree 2 3 (home ∷ note ∷ []) (some 2) home-note-Leads
      home-note-AllNames (omega arith)

abbrev root_node : FsNode
root_node = fstovfs (fetch_inode 0 tree_disk) 0

-- What a call answers.
abbrev answer : Run (ℕ × FileSystem) → ℕ
answer (returns out) = out.0
answer fault = 2
answer out_of_fuel = 3

create_twice : answer (create_inode 2 3 (b'/' ∷ []) home 1 tree) ≡ 1
unfolding create_inode resolve_inode_number resolve_loop resolve_part resolve_entries resolve_next
    search_entries first_slash fetch_inode_directory fetch_inode inode_offset strncmp strncmp_loop
create_twice = refl

create_in_file : answer (create_inode 2 3 (b'/' ∷ join (home ∷ note ∷ [])) home 1 tree) ≡ 1
unfolding create_inode resolve_inode_number resolve_loop resolve_part resolve_entries resolve_next
    search_entries first_slash fetch_inode_directory fetch_inode inode_offset strncmp strncmp_loop
create_in_file = refl

create_note : answer (create_inode 2 3 (b'/' ∷ []) note 1 tree) ≡ 0
unfolding create_inode add_entry resolve_inode_number resolve_loop resolve_part resolve_entries
    resolve_next search_entries first_slash fetch_inode_directory fetch_inode inode_offset strncmp
    strncmp_loop harddrive_load_blocks load_loop find_block
create_note = refl

note_no_directory : (n : ℕ) → some 2 ≡ some n → (fetch_inode n tree.disk).type ≢ directory
unfolding fetch_inode inode_offset
note_no_directory n found is_dir =
    let same : 2 ≡ n = some-injective 2 n found in
    let type : 0 ≡ directory = ap (λ m. (fetch_inode m tree.disk).type) same ∙ is_dir in
    absurd (omega (arith, type))

create_inode-refused_example :
    create_inode 2 3 (b'/' ∷ join (home ∷ note ∷ [])) home 1 tree ≡ returns (1, tree)
create_inode-refused_example =
    create_inode-refused tree 2 3 (home ∷ note ∷ []) (some 2) home 1 home-note-Leads
      home-note-AllNames (omega arith) note_no_directory
