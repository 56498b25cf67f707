-- ===== src/Vfs/Count.antt =====
-- kernel/filesystem/virtual-filesystem.c: the references of a node are the opens that were not
-- closed.
use mathlib.Core.Path.{subst}
use bitloader.Prelude.{
  Bool, Bool-cases, List, Option, [], ap, arith, false, if◌then◌else◌, inl, inr, none, refl, some,
  sym, true, ℕ, ◌%◌, ◌++◌, ◌+◌, ◌==◌, ◌^◌, ◌∙◌, ◌∷◌, ◌≡◌,
}
use bitloader.Prelude.Run.{Holds, Holds->>=, fault_returns, returns, ◌>>=◌}
use bitloader.Vfs.{
  Answers, Driver, HashMap, Path8, S, Vfs, VfsFile, VfsIndexNode, count_reference, find_node,
  insert_new_inode, inserted, open_node, set_node, vfs_close_file, vfs_error, vfs_open_file,
  vfs_regular_file,
}

abbrev pub count : ℕ → List ℕ → ℕ
count p [] = 0
count p (q ∷ held) = if q == p then count p held + 1 else count p held

-- The nodes' references count the opens in `held`.
abbrev pub Counted : {Map State : Type 0} → List ℕ → Vfs Map State → Type 0
Counted held s = (p : ℕ) → (s.nodes p).number_of_references ≡ count p held % 2 ^ 32

count_one :
    (q p : ℕ) (pre post : List ℕ)
    → count q (pre ++ p ∷ post)
      ≡ (if p == q then count q (pre ++ post) + 1 else count q (pre ++ post))
count_one q p [] post = refl
count_one q p (a ∷ pre) post =
    let rest = count_one q p pre post in
    elim (Bool-cases (a == q)) [
      | inl here ↦ rw here (rw rest (ground arith))
      | inr other ↦ rw other (rw rest (ground arith))
    ]

module _ (h : HashMap) (d : Driver) where
  -- The node that an open may make is none that is in use, and the driver counts no references.
  pub record FreshNode (a : Answers) (path : Path8) (s : S h d) (held : List ℕ) : Type 0 where
    pub unused : count a.new held ≡ 0
    pub unreferenced : (d.get_inode path s.driver).0.number_of_references ≡ 0

  set_node-Counted :
      (held : List ℕ) (p : ℕ) (node : VfsIndexNode) (s : S h d)
      → Counted held s
      → node.number_of_references ≡ count p held % 2 ^ 32
      → Counted held (set_node h d p node s)
  set_node-Counted held p node s counted same q = elim (Bool-cases (q == p)) [
    | inl here ↦ let eq : p ≡ q = ground arith in rw here (rw eq at same)
    | inr other ↦ rw other (counted q)
  ]

  inserted-Counted :
      (new : ℕ) (shrunk : Bool) (node : VfsIndexNode) (s : S h d) (held : List ℕ)
      (put : Option h.Map)
      → Counted held s
      → Holds (λ r. Counted held r.1) (inserted h d new shrunk node s put)
  unfolding inserted
  inserted-Counted new shrunk node s held none counted = elim (Bool-cases shrunk) [
    | inl some_left ↦ rw some_left (elim (Bool-cases (node.type == vfs_regular_file)) [
      | inl file ↦ rw file counted
      | inr other ↦ rw other counted
    ])
    | inr failed ↦ rw failed counted
  ]
  inserted-Counted new shrunk node s held (some m) counted = counted

  insert-Counted :
      (a : Answers) (node : VfsIndexNode) (path : Path8) (s : S h d) (held : List ℕ)
      → Counted held s
      → count a.new held ≡ 0
      → node.number_of_references ≡ 0
      → Holds (λ r. Counted held r.1) (insert_new_inode h d a node path s)
  unfolding insert_new_inode
  insert-Counted a node path s held counted unused zero_refs =
      let after = set_node-Counted held a.new node s counted (zero_refs ∙ rw unused refl) in
      elim (Bool-cases a.grown) [
        | inl grown ↦ elim (Bool-cases (a.new == 0)) [
          | inl null ↦ rw grown (rw null tt)
          | inr there ↦ rw grown (
              rw there (
                inserted-Counted a.new a.shrunk node (set_node h d a.new node s) held
                  (h.put s.hashmap path a.new) after))
        ]
        | inr failed ↦ rw failed counted
      ]

  find-Counted :
      (a : Answers) (path : Path8) (s : S h d) (held : List ℕ)
      → Counted held s
      → FreshNode a path s held
      → Holds (λ r. Counted held r.1) (find_node h d a path s)
  unfolding find_node
  find-Counted a path s held counted fresh =
      let known = h.get s.hashmap path in
      let physical = d.get_inode path s.driver in
      let s1 : S h d = record s { driver = physical.1 } in
      elim (Bool-cases (known == 0)) [
        | inl unknown ↦ elim (Bool-cases (physical.0.type == vfs_error)) [
          | inl missing ↦ rw unknown (rw missing counted)
          | inr there ↦ rw unknown (
              rw there (
                Holds->>= (λ r. Counted held r.1) (λ r. Counted held r.1)
                  (insert_new_inode h d a physical.0 path s1) (λ r. returns (some r.0, r.1))
                  (insert-Counted a physical.0 path s1 held counted fresh.unused fresh.unreferenced)
                  (λ r holds. holds)))
        ]
        | inr in_use ↦ rw in_use counted
      ]

  count_reference-Counted :
      (p : ℕ) (s : S h d) (held : List ℕ)
      → Counted held s
      → Counted (p ∷ held) (count_reference h d p s)
  count_reference-Counted p s held counted q = elim (Bool-cases (q == p)) [
    | inl here ↦
        let back : (p == q) ≡ true = ground arith in
        let eq : p ≡ q = ground arith in
        let before = counted p ∙ ap (λ z. count z held % 2 ^ 32) eq in
        rw here (rw back (omega arith))
    | inr other ↦ let back : (p == q) ≡ false = ground arith in rw other (rw back (counted q))
  ]

  OpenCounted : List ℕ → Option VfsFile × S h d → Type 0
  OpenCounted held (none, s1) = Unit
  OpenCounted held (some f, s1) = Counted (f.inode ∷ held) s1

  open_node-Counted :
      (opens : Bool) (p : Option ℕ) (s : S h d) (held : List ℕ)
      → Counted held s
      → Holds (OpenCounted held) (open_node h d opens (p, s))
  unfolding open_node OpenCounted
  open_node-Counted opens none s held counted = tt
  open_node-Counted opens (some p) s held counted = elim (Bool-cases (p == 0)) [
    | inl null ↦ rw null tt
    | inr there ↦ elim (Bool-cases opens) [
      | inl file ↦ rw there (rw file (count_reference-Counted p s held counted))
      | inr no_file ↦ rw there (rw no_file tt)
    ]
  ]

  open-Counted :
      (a : Answers) (path : Path8) (s : S h d) (held : List ℕ)
      → Counted held s
      → FreshNode a path s held
      → Holds (OpenCounted held) (vfs_open_file h d a path s)
  unfolding vfs_open_file
  open-Counted a path s held counted fresh =
      Holds->>= (λ r. Counted held r.1) (OpenCounted held) (find_node h d a path s)
        (open_node h d a.opens) (find-Counted a path s held counted fresh)
        (λ r holds. open_node-Counted a.opens r.0 r.1 held holds)

  -- No file, and no node: nothing is counted.
  no_node-Counted :
      (opens : Bool) (s s1 : S h d) (held : List ℕ)
      → Counted held s
      → open_node h d opens (none, s) ≡ returns (none, s1)
      → Counted held s1
  unfolding open_node
  no_node-Counted opens s s1 held counted e = subst (Holds (λ r. Counted held r.1)) e counted

  -- A node, and no file: the reference is counted all the same.
  no_file-Counted :
      (p : ℕ) (s s1 : S h d) (held : List ℕ)
      → Counted held s
      → open_node h d false (some p, s) ≡ returns (none, s1)
      → Counted (p ∷ held) s1
  unfolding open_node
  no_file-Counted p s s1 held counted e = elim (Bool-cases (p == 0)) [
    | inl null ↦ absurd (fault_returns (rw null at e))
    | inr there ↦
        subst (Holds (λ r. Counted (p ∷ held) r.1)) (rw there at e)
          (count_reference-Counted p s held counted)
  ]

  closed-Counted :
      (f : VfsFile) (pre post : List ℕ) (s : S h d)
      → Counted (pre ++ f.inode ∷ post) s
      → Counted (pre ++ post) (vfs_close_file h d f s)
  unfolding vfs_close_file
  closed-Counted f pre post s counted q = elim (Bool-cases (q == f.inode)) [
    | inl here ↦
        let same : f.inode ≡ q = ground arith in
        let back : (f.inode == q) ≡ true = ground arith in
        let before : (s.nodes f.inode).number_of_references ≡ (count q (pre ++ post) + 1) % 2 ^ 32 =
          counted f.inode
          ∙ (ap (λ z. count z (pre ++ f.inode ∷ post) % 2 ^ 32) same
              ∙ ap (λ c. c % 2 ^ 32) (count_one q f.inode pre post ∙ rw back refl)) in
        rw here (omega arith)
    | inr other ↦
        let back : (f.inode == q) ≡ false = ground arith in
        rw other (counted q ∙ ap (λ c. c % 2 ^ 32) (count_one q f.inode pre post ∙ rw back refl))
  ]

  -- The states that calls of `vfs_open_file` and `vfs_close_file` lead to, with the nodes of the
  -- references that are counted: a reference stays for good where the driver's `open` failed.
  pub data Reach : S h d → List ℕ → Type 0 where
    started : (s : S h d) → ((p : ℕ) → (s.nodes p).number_of_references ≡ 0) → Reach s []
    opened :
        (s s1 : S h d) (held : List ℕ) (a : Answers) (path : Path8) (f : VfsFile)
        → Reach s held
        → FreshNode a path s held
        → vfs_open_file h d a path s ≡ returns (some f, s1)
        → Reach s1 (f.inode ∷ held)
    not_found :
        (s s0 s1 : S h d) (held : List ℕ) (a : Answers) (path : Path8)
        → Reach s held
        → FreshNode a path s held
        → find_node h d a path s ≡ returns (none, s0)
        → vfs_open_file h d a path s ≡ returns (none, s1)
        → Reach s1 held
    not_opened :
        (s s0 s1 : S h d) (held : List ℕ) (a : Answers) (path : Path8) (p : ℕ)
        → Reach s held
        → FreshNode a path s held
        → find_node h d a path s ≡ returns (some p, s0)
        → a.opens ≡ false
        → vfs_open_file h d a path s ≡ returns (none, s1)
        → Reach s1 (p ∷ held)
    closed :
        (s : S h d) (pre post : List ℕ) (f : VfsFile)
        → Reach s (pre ++ f.inode ∷ post)
        → Reach (vfs_close_file h d f s) (pre ++ post)

  -- However files are opened and closed, a node's `number_of_references` is the number of opens of it
  -- that were not closed, in 32 bits, those that gave no file among them. The driver counts no
  -- references in its nodes, and `malloc` gives no node that is in use.
  pub Reach-Counted : {s : S h d} {held : List ℕ} → Reach s held → Counted held s
  unfolding vfs_open_file OpenCounted
  Reach-Counted (started s none_counted) = none_counted
  Reach-Counted (opened s s1 held a path f reach fresh e) =
      subst (Holds (OpenCounted held)) e (open-Counted a path s held (Reach-Counted reach) fresh)
  Reach-Counted (not_found s s0 s1 held a path reach fresh found e) =
      let at_found =
        subst (Holds (λ r. Counted held r.1)) found
          (find-Counted a path s held (Reach-Counted reach) fresh) in
      no_node-Counted a.opens s0 s1 held at_found
        (sym (ap (λ r. r >>= open_node h d a.opens) found) ∙ e)
  Reach-Counted (not_opened s s0 s1 held a path p reach fresh found off e) =
      let at_found =
        subst (Holds (λ r. Counted held r.1)) found
          (find-Counted a path s held (Reach-Counted reach) fresh) in
      no_file-Counted p s0 s1 held at_found (
        ap (λ o. open_node h d o (some p, s0)) (sym off)
        ∙ (sym (ap (λ r. r >>= open_node h d a.opens) found) ∙ e))
  Reach-Counted (closed s pre post f reach) = closed-Counted f pre post s (Reach-Counted reach)
