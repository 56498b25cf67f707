-- ===== src/Files/Directory/Refused.antt =====
-- kernel/filesystem/estros-fs.c: where `create_inode` answers an error.
use bitloader.Prelude.{
  List, Option, arith, false, length, none, refl, some, ℕ, ◌==◌, ◌∷◌, ◌≡◌, ◌≢◌, ◌≤◌,
}
use bitloader.Prelude.Run.{returns}
use bitloader.Files.{FileSystem}
use bitloader.Files.Inodes.{fetch_inode}
use bitloader.Files.Directory.{directory, resolve_inode_number}
use bitloader.Files.Directory.Create.{create_inode}
use bitloader.Files.Directory.Walk.{AllNames, Leads, join, resolve_inode_number-Leads}

refused :
    (fs : FileSystem) (rounds fuel : ℕ) (path : List ℕ) (r : Option ℕ) (name : List ℕ) (type : ℕ)
    → resolve_inode_number rounds fuel path fs ≡ returns r
    → ((n : ℕ) → r ≡ some n → (fetch_inode n fs.disk).type ≢ directory)
    → create_inode rounds fuel path name type fs ≡ returns (1, fs)
unfolding create_inode
refused fs rounds fuel path none name type found other = rw found refl
refused fs rounds fuel path (some n) name type found other =
    let differs = other n refl in
    let no_directory : ((fetch_inode n fs.disk).type == directory) ≡ false = ground arith in
    rw found (rw no_directory refl)

-- Where the names of the path lead to nothing, or to an inode that is no directory, a creation there is
-- refused and leaves the file system as it was.
pub create_inode-refused :
    (fs : FileSystem) (rounds fuel : ℕ) (names : List (List ℕ)) (r : Option ℕ) (name : List ℕ)
    (type : ℕ)
    → Leads fs.disk fuel fs.root_inode names r
    → AllNames names
    → length names ≤ rounds
    → ((n : ℕ) → r ≡ some n → (fetch_inode n fs.disk).type ≢ directory)
    → create_inode rounds fuel (b'/' ∷ join names) name type fs ≡ returns (1, fs)
create_inode-refused fs rounds fuel names r name type leads all enough other =
    refused fs rounds fuel (b'/' ∷ join names) r name type
      (resolve_inode_number-Leads fs rounds fuel names r leads all enough) other
