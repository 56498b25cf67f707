-- ===== src/Vfs/Open.antt =====
-- kernel/filesystem/virtual-filesystem.c: a path that is open has one node, which each further open
-- finds.
use mathlib.Core.Path.{subst}
use bitloader.Prelude.{
  Bool, Bool-cases, Option, arith, false, if◌then◌else◌, inl, inr, none, refl, some, ℕ, ◌==◌, ◌≡◌,
  ◌≢◌,
}
use bitloader.Prelude.Run.{Holds, Holds->>=, returns}
use bitloader.Vfs.{
  Answers, Driver, HashMap, Path8, S, VfsFile, VfsIndexNode, count_reference, find_node,
  insert_new_inode, inserted, open_node, set_node, vfs_error, vfs_open_file,
}

module _ (h : HashMap) (d : Driver) (path : Path8) where
  -- The path's node in the hash map, where one is given.
  abbrev NodeAt : ℕ × S h d → Type 0
  NodeAt r = r.0 ≢ 0 → h.get r.1.hashmap path ≡ r.0

  FoundAt : Option ℕ × S h d → Type 0
  FoundAt (none, s) = Unit
  FoundAt (some p, s) = NodeAt (p, s)

  OpenAt : Option VfsFile × S h d → Type 0
  OpenAt (none, s) = Unit
  OpenAt (some f, s) = (f.inode ≢ 0) × (h.get s.hashmap path ≡ f.inode)

  inserted-NodeAt :
      (new : ℕ) (shrunk : Bool) (node : VfsIndexNode) (s : S h d) (put : Option h.Map)
      → h.put s.hashmap path new ≡ put
      → Holds NodeAt (inserted h d new shrunk node s put)
  unfolding inserted
  inserted-NodeAt new shrunk node s none e = λ there. absurd (there refl)
  inserted-NodeAt new shrunk node s (some m) e = λ there. h.get-put s.hashmap m path new e

  insert-NodeAt :
      (a : Answers) (node : VfsIndexNode) (s : S h d)
      → Holds NodeAt (insert_new_inode h d a node path s)
  unfolding insert_new_inode
  insert-NodeAt a node s = elim (Bool-cases a.grown) [
    | inl grown ↦ elim (Bool-cases (a.new == 0)) [
      | inl null ↦ rw grown (rw null tt)
      | inr there ↦ rw grown (
          rw there (
            inserted-NodeAt a.new a.shrunk node (set_node h d a.new node s)
              (h.put s.hashmap path a.new) refl))
    ]
    | inr failed ↦ rw failed (λ there. absurd (there refl))
  ]

  find-FoundAt : (a : Answers) (s : S h d) → Holds FoundAt (find_node h d a path s)
  unfolding find_node FoundAt
  find-FoundAt a s =
      let physical = d.get_inode path s.driver in
      let s1 : S h d = record s { driver = physical.1 } in
      elim (Bool-cases (h.get s.hashmap path == 0)) [
        | inl unknown ↦ elim (Bool-cases (physical.0.type == vfs_error)) [
          | inl missing ↦ rw unknown (rw missing tt)
          | inr there ↦ rw unknown (
              rw there (
                Holds->>= NodeAt FoundAt (insert_new_inode h d a physical.0 path s1)
                  (λ r. returns (some r.0, r.1)) (insert-NodeAt a physical.0 s1)
                  (λ r holds. holds)))
        ]
        | inr in_use ↦ rw in_use (λ there. refl)
      ]

  open_node-OpenAt :
      (opens : Bool) (p : Option ℕ) (s : S h d)
      → FoundAt (p, s)
      → Holds OpenAt (open_node h d opens (p, s))
  unfolding open_node FoundAt OpenAt
  open_node-OpenAt opens none s found = tt
  open_node-OpenAt opens (some p) s found = elim (Bool-cases (p == 0)) [
    | inl null ↦ rw null tt
    | inr there ↦
        let some_p : p ≢ 0 = ground arith in
        elim (Bool-cases opens) [
          | inl file ↦ rw there (rw file (some_p, found some_p))
          | inr no_file ↦ rw there (rw no_file tt)
        ]
  ]

  open-OpenAt : (a : Answers) (s : S h d) → Holds OpenAt (vfs_open_file h d a path s)
  unfolding vfs_open_file
  open-OpenAt a s =
      Holds->>= FoundAt OpenAt (find_node h d a path s) (open_node h d a.opens) (find-FoundAt a s)
        (λ r found. open_node-OpenAt a.opens r.0 r.1 found)

  -- A path that was opened has its node in use: each further open asks neither the driver nor the
  -- heap for one, whatever they would answer, counts one reference more, and gives a file of the
  -- same node if the driver's `open` does.
  vfs_open_file-again :
      (a b : Answers) (s s1 : S h d) (f : VfsFile)
      → vfs_open_file h d a path s ≡ returns (some f, s1)
      → vfs_open_file h d b path s1
        ≡ returns (if b.opens then some f else none, count_reference h d f.inode s1)
  unfolding vfs_open_file find_node open_node OpenAt
  vfs_open_file-again a b s s1 f e =
      let at = subst (Holds OpenAt) e (open-OpenAt a s) in
      let there = at.0 in
      let some_f : (f.inode == 0) ≡ false = ground arith in rw (at.1) (rw some_f (rw some_f refl))
