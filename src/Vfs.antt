-- ===== src/Vfs.antt =====
-- kernel/filesystem/virtual-filesystem.c: the index nodes that are in use, by their paths. The hash
-- map is a copy of another project's, and the driver is set at run time: both are interfaces.
pub mod Open
pub mod Count
pub mod Paths
mod Tests
use bitloader.Prelude.{
  Bool, List, Option, [], drop, get_or, if◌then◌else◌, length, none, not, some, suc, take, zero, ℕ,
  ◌&&◌, ◌++◌, ◌-◌, ◌==◌, ◌∷◌, ◌≡◌, ◌≢◌,
}
use bitloader.Prelude.Run.{Run, fault, returns, ◌>>=◌}
use bitloader.Prelude.Words.{add32, sub32}

-- The characters of a path, without the NUL.
abbrev pub Path8 : Type 0
Path8 = List ℕ

abbrev pub vfs_error : ℕ
vfs_error = 0

abbrev pub vfs_regular_file : ℕ
vfs_regular_file = 1

abbrev pub vfs_directory : ℕ
vfs_directory = 2

-- The table of file operations is known by a number.
pub record VfsIndexNode : Type 0 where
  pub type : ℕ
  pub size : ℕ
  pub file_operations : ℕ
  pub private_data : ℕ
  pub number_of_references : ℕ

-- `hashmap_get` gives NULL, 0, for a key that is not in the map, and `hashmap_put` may fail. A key
-- is what stands at its pointer, which the map keeps: the path must stay as it is.
pub record HashMap : Type 1 where
  pub Map : Type 0
  pub get : Map → Path8 → ℕ
  pub put : Map → Path8 → ℕ → Option Map
  pub get-put : (m m1 : Map) (path : Path8) (v : ℕ) → put m path v ≡ some m1 → get m1 path ≡ v
  pub get-put_ne :
      (m m1 : Map) (path other : Path8) (v : ℕ)
      → put m path v ≡ some m1
      → other ≢ path
      → get m1 other ≡ get m other

-- `VFSDriverOperations`, over the driver's own state.
pub record Driver : Type 1 where
  pub State : Type 0
  pub create_inode : (path name : Path8) (type : ℕ) → State → ℕ × State
  pub get_inode : Path8 → State → VfsIndexNode × State

-- `inodes` and the nodes that it points to, the hash map, the driver's state, and the private data
-- that the driver was given back by `free_inode_data`.
pub record Vfs (Map State : Type 0) : Type 0 where
  pub inodes : List ℕ
  pub nodes : ℕ → VfsIndexNode
  pub hashmap : Map
  pub driver : State
  pub freed : List ℕ

pub record VfsFile : Type 0 where
  pub inode : ℕ

-- What the heap and the driver's `open` answer in a call: whether `realloc` gives memory, the address
-- that `malloc` gives, whether the second `realloc` gives memory, and whether there is a file.
pub record Answers : Type 0 where
  pub grown : Bool
  pub new : ℕ
  pub shrunk : Bool
  pub opens : Bool

module _ (h : HashMap) (d : Driver) where
  abbrev pub S : Type 0
  S = Vfs h.Map d.State

  abbrev pub set_node : ℕ → VfsIndexNode → S → S
  set_node p node s = record s { nodes = λ q. if q == p then node else s.nodes q }

  abbrev pub give_back : VfsIndexNode → S → S
  give_back node s = record s { freed = node.private_data ∷ s.freed }

  -- After `hashmap_put`: `s` has the new node.
  unfoldable pub inserted :
      (new : ℕ) (shrunk : Bool) → VfsIndexNode → S → Option h.Map → Run (ℕ × S)
  inserted new shrunk inode s none =
      let given = if inode.type == vfs_regular_file then give_back inode s else s in
      returns (0, if shrunk then given else s)
  inserted new shrunk inode s (some m) =
      returns (new, record s { inodes = s.inodes ++ new ∷ []; hashmap = m })

  -- The node's address, or NULL. The node is written through `malloc`'s answer, NULL too.
  unfoldable pub insert_new_inode : Answers → VfsIndexNode → Path8 → S → Run (ℕ × S)
  insert_new_inode a inode path s =
      if not a.grown
      then returns (0, s)
      else if a.new == 0
      then fault
      else inserted a.new a.shrunk inode (set_node a.new inode s) (h.put s.hashmap path a.new)

  -- The node of the path: the one in use, or the driver's. `none` is where there is none.
  unfoldable pub find_node : Answers → Path8 → S → Run (Option ℕ × S)
  find_node a path s =
      let known = h.get s.hashmap path in
      let (physical, driver) = d.get_inode path s.driver in
      let s1 : S = record s { driver = driver } in
      if not (known == 0)
      then returns (some known, s)
      else if physical.type == vfs_error
      then returns (none, give_back physical s1)
      else insert_new_inode a physical path s1 >>= λ r. returns (some r.0, r.1)

  abbrev pub count_reference : ℕ → S → S
  count_reference p s =
      let node = s.nodes p in
      set_node p (record node { number_of_references = add32 node.number_of_references 1 }) s

  -- The reference is counted also where the driver's `open` gives no file. A node that could not be
  -- inserted is NULL, and is opened all the same.
  unfoldable pub open_node : Bool → Option ℕ × S → Run (Option VfsFile × S)
  open_node opens (none, s) = returns (none, s)
  open_node opens (some p, s) =
      let file : Option VfsFile = if opens then some (record { inode = p }) else none in
      if p == 0 then fault else returns (file, count_reference p s)

  unfoldable pub vfs_open_file : Answers → Path8 → S → Run (Option VfsFile × S)
  vfs_open_file a path s = find_node a path s >>= open_node a.opens

  unfoldable pub vfs_close_file : VfsFile → S → S
  vfs_close_file file s =
      let node = s.nodes file.inode in
      set_node file.inode (record node { number_of_references = sub32 node.number_of_references 1 })
        s

  abbrev pub vfs_create_device_file_no_checks :
      Answers → Path8 → (file_operations type : ℕ) → S → Run (ℕ × S)
  vfs_create_device_file_no_checks a path file_operations type s =
      let inode : VfsIndexNode = record {
        type = type;
        size = 0;
        file_operations = file_operations;
        private_data = 0;
        number_of_references = 0;
      } in
      insert_new_inode a inode path s >>= λ r. returns (if r.0 == 0 then 1 else 0, r.1)

-- The search for the last '/', from `i` down; the path starts with one.
unfoldable pub last_slash : Path8 → ℕ → ℕ
last_slash path zero = 0
last_slash path (suc i) =
    let rest = last_slash path i in if get_or path (suc i) 0 == b'/' then suc i else rest

-- What the path is checked for first: it starts with '/' and does not end with one.
abbrev pub is_file_path : Path8 → Bool
is_file_path path = get_or path 0 0 == b'/' && not (get_or path (length path - 1) 0 == b'/')

-- The path is cut at its last '/' while the driver has it, and whole again afterwards.
abbrev pub directory_of : Path8 → Path8
directory_of path = take (last_slash path (length path)) path

abbrev pub name_of : Path8 → Path8
name_of path = drop (suc (last_slash path (length path))) path

module _ (h : HashMap) (d : Driver) where
  unfoldable pub vfs_create_regular_file : Path8 → S h d → ℕ × S h d
  vfs_create_regular_file path s =
      let made = d.create_inode (directory_of path) (name_of path) vfs_regular_file s.driver in
      if not (is_file_path path)
      then (1, s)
      else if not (h.get s.hashmap path == 0)
      then (1, s)
      else (made.0, record s { driver = made.1 })

  -- The node that the driver gives for the path; its private data goes back.
  abbrev pub probe : Path8 → S h d → ℕ × S h d
  probe path s =
      let found = d.get_inode path s.driver in
      (found.0.type, give_back h d found.0 (record s { driver = found.1 }))

  unfoldable pub vfs_create_device_file :
      Answers → Path8 → (file_operations type : ℕ) → S h d → Run (ℕ × S h d)
  vfs_create_device_file a path file_operations type s =
      let file = probe path s in
      let directory = probe (directory_of path) file.1 in
      if not (is_file_path path)
      then returns (1, s)
      else if not (h.get s.hashmap path == 0)
      then returns (1, s)
      else if not (file.0 == vfs_error)
      then returns (1, file.1)
      else if not (directory.0 == vfs_directory)
      then returns (1, directory.1)
      else vfs_create_device_file_no_checks h d a path file_operations type directory.1
