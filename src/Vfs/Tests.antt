-- ===== src/Vfs/Tests.antt =====
-- A hash map that is a list, a driver with one directory, and runs of opening and closing.
use bitloader.Prelude.{
  Bool, Bool-cases, List, [], ap, ap₂, arith, false, if◌then◌else◌, inl, inr, length, none, refl,
  some, sym, true, ℕ, ◌&&◌, ◌++◌, ◌+◌, ◌<◌, ◌==◌, ◌∙◌, ◌∷◌, ◌≡◌, ◌≢◌,
}
use bitloader.Prelude.Run.{fault, returns, ◌>>=◌}
use bitloader.Vfs.{
  Answers, Driver, HashMap, Path8, S, VfsFile, VfsIndexNode, find_node, insert_new_inode, inserted,
  last_slash, open_node, vfs_close_file, vfs_create_device_file, vfs_create_regular_file,
  vfs_directory, vfs_error, vfs_open_file, vfs_regular_file,
}
use bitloader.Vfs.Count.{Counted, Reach-Counted, opened, started}
use bitloader.Vfs.Paths.{NoSlash, vfs_create_regular_file-parts}

abbrev same_path : Path8 → Path8 → Bool
same_path [] [] = true
same_path [] (c ∷ ys) = false
same_path (c ∷ xs) [] = false
same_path (c ∷ xs) (e ∷ ys) = c == e && same_path xs ys

same_path_refl : (xs : Path8) → same_path xs xs ≡ true
same_path_refl [] = refl
same_path_refl (c ∷ xs) = let head : (c == c) ≡ true = ground arith in rw head (same_path_refl xs)

same_path_sound : (xs ys : Path8) → same_path xs ys ≡ true → xs ≡ ys
same_path_sound [] [] same = refl
same_path_sound [] (c ∷ ys) same = absurd (cc same)
same_path_sound (c ∷ xs) [] same = absurd (cc same)
same_path_sound (c ∷ xs) (e ∷ ys) same = elim (Bool-cases (c == e)) [
  | inl head ↦
      let eq : c ≡ e = ground arith in
      ap₂ (λ z zs. z ∷ zs) eq (same_path_sound xs ys (rw head at same))
  | inr other ↦ absurd (cc (rw other at same))
]

abbrev Pairs : Type 0
Pairs = List (Path8 × ℕ)

abbrev get_pair : Pairs → Path8 → ℕ
get_pair [] path = 0
get_pair (pair ∷ pairs) path = if same_path path pair.0 then pair.1 else get_pair pairs path

get_pair-put :
    (m m1 : Pairs) (path : Path8) (v : ℕ) → some ((path, v) ∷ m) ≡ some m1 → get_pair m1 path ≡ v
get_pair-put m m1 path v e =
    ap (λ o. elim o [ none ↦ 0 | some n ↦ get_pair n path ]) (sym e)
    ∙ (let same = same_path_refl path in rw same refl)

get_pair-put_ne :
    (m m1 : Pairs) (path other : Path8) (v : ℕ)
    → some ((path, v) ∷ m) ≡ some m1
    → other ≢ path
    → get_pair m1 other ≡ get_pair m other
get_pair-put_ne m m1 path other v e ne =
    ap (λ o. elim o [ none ↦ 0 | some n ↦ get_pair n other ]) (sym e)
    ∙ elim (Bool-cases (same_path other path)) [
      | inl same ↦ absurd (ne (same_path_sound other path same))
      | inr differs ↦ rw differs refl
    ]

abbrev pairs : HashMap
pairs = record {
  Map = Pairs;
  get = get_pair;
  put = λ m path v. some ((path, v) ∷ m);
  get-put = get_pair-put;
  get-put_ne = get_pair-put_ne;
}

abbrev root : Path8
root = b'/' ∷ []

abbrev tty : Path8
tty = b'/' ∷ b't' ∷ []

abbrev node_of : Path8 → VfsIndexNode
node_of path = record {
  type = if same_path path [] then vfs_directory else if same_path path tty then 1 else vfs_error;
  size = 5;
  file_operations = 1;
  private_data = 77;
  number_of_references = 0;
}

-- The driver counts what it made.
abbrev one_file : Driver
one_file = record {
  State = ℕ;
  create_inode = λ path name type made. (0, made + 1);
  get_inode = λ path made. (node_of path, made);
}

abbrev empty_vfs : S pairs one_file
empty_vfs = record { inodes = []; nodes = λ p. node_of []; hashmap = []; driver = 0; freed = [] }

abbrev answers : Answers
answers = record { grown = true; new = 1000; shrunk = true; opens = true }

abbrev second : Answers
second = record answers { new = 2000 }

abbrev file : VfsFile
file = record { inode = 1000 }

abbrev after_open : S pairs one_file
after_open = record empty_vfs {
  inodes = 1000 ∷ [];
  nodes = λ q.
      if q == 1000
      then record (node_of tty) { number_of_references = 1 }
      else (if q == 1000 then node_of tty else node_of []);
  hashmap = (tty, 1000) ∷ [];
}

first_open : vfs_open_file pairs one_file answers tty empty_vfs ≡ returns (some file, after_open)
unfolding vfs_open_file find_node insert_new_inode inserted open_node
first_open = refl

Reach-Counted_example : Counted (1000 ∷ []) after_open
Reach-Counted_example = Reach-Counted pairs one_file (
    opened empty_vfs after_open [] answers tty file (started empty_vfs (λ p. refl))
      (record { unused = refl; unreferenced = refl }) first_open)

vfs_create_regular_file-parts_example :
    (directory : Path8) × (name : Path8) × (tty ≡ directory ++ b'/' ∷ name)
    × (0 < length name)
    × NoSlash name
    × (vfs_create_regular_file pairs one_file tty empty_vfs ≡ (
        let made = one_file.create_inode directory name vfs_regular_file 0 in
        (made.0, record empty_vfs { driver = made.1 })))
vfs_create_regular_file-parts_example =
    vfs_create_regular_file-parts pairs one_file tty empty_vfs refl refl

-- A device file needs a directory, and no file of its path.
makes_device :
    (vfs_create_device_file pairs one_file answers (b'/' ∷ b'd' ∷ []) 9 3 empty_vfs >>= λ r.
    returns r.0)
    ≡ returns 0
unfolding vfs_create_device_file insert_new_inode inserted last_slash
makes_device = refl

-- A node that cannot be inserted is opened through NULL.
opens_null : vfs_open_file pairs one_file (record answers { grown = false }) tty empty_vfs ≡ fault
unfolding vfs_open_file find_node insert_new_inode inserted open_node
opens_null = refl

-- The driver's `open` fails, and the reference stays.
counts_failure :
    (vfs_open_file pairs one_file (record answers { opens = false }) tty empty_vfs >>= λ r.
    returns (r.1.nodes 1000).number_of_references)
    ≡ returns 1
unfolding vfs_open_file find_node insert_new_inode inserted open_node
counts_failure = refl

-- The last file of a node is closed: the node stays.
closes : ((vfs_close_file pairs one_file file after_open).nodes 1000).number_of_references ≡ 0
unfolding vfs_close_file
closes = refl
