-- ===== src/Files/Directory/Listing.antt =====
-- kernel/filesystem/estros-fs.c: the entries of a directory as paths.
use bitloader.Prelude.{List, [], ℕ, ◌∷◌}
use bitloader.Files.Directory.{entry_path}
use bitloader.Files.Directory.Search.{Named}

abbrev pub paths_of : List ℕ → List Named → List (List ℕ)
paths_of path [] = []
paths_of path (entry ∷ rest) = entry_path path entry.0 ∷ paths_of path rest
