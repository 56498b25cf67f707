-- ===== src/Process/Ring.antt =====
-- Looking for a process in the ring of kernel/process.c.
use bitloader.Prelude.{
  Bool-cases, List, Option, [], arith, false, if◌then◌else◌, inl, inr, length, none, refl, some,
  suc, true, zero, ℕ, ◌<◌, ◌==◌, ◌∷◌, ◌≡◌, ◌≢◌,
}
use bitloader.Prelude.Run.{out_of_fuel, returns}
use bitloader.Process.{
  Entries, ProcessEntry, Processes, get_process_by_id, search_ring, search_to_null,
  set_current_process,
}

-- The entries from an address on, to the one whose successor is the first again.
abbrev pub Ring : Entries → ℕ → List (ℕ × ProcessEntry) → Type 0
Ring m first [] = Unit
Ring m first ((p, e) ∷ []) = (m p ≡ some e) × (e.next ≡ first)
Ring m first ((p, e) ∷ (q, f) ∷ rest) =
    (m p ≡ some e) × (e.next ≡ q) × (q ≢ first) × Ring m first ((q, f) ∷ rest)

-- The first of the entries with an id.
abbrev pub entry_of : ℕ → List (ℕ × ProcessEntry) → Option ℕ
entry_of id [] = none
entry_of id ((p, e) ∷ rest) = if e.id == id then some p else entry_of id rest

search_ring-entry_of :
    (fuel : ℕ) (m : Entries) (first id p : ℕ) (e : ProcessEntry) (rest : List (ℕ × ProcessEntry))
    → Ring m first ((p, e) ∷ rest)
    → length rest < fuel
    → search_ring fuel m first p id ≡ returns (entry_of id ((p, e) ∷ rest))
unfolding search_ring
search_ring-entry_of zero m first id p e rest ring enough = absurd (omega arith)
search_ring-entry_of (suc fuel) m first id p e [] ring enough = elim (Bool-cases (e.id == id)) [
  | inl same ↦ rw (ring.0, search_ring) (rw same refl)
  | inr other ↦
      let ends : (e.next == first) ≡ true = let h = ring.1 in ground arith in
      rw (ring.0, search_ring) (rw other (rw ends refl))
]
search_ring-entry_of (suc fuel) m first id p e ((q, f) ∷ rest) ring enough =
    elim (Bool-cases (e.id == id)) [
      | inl same ↦ rw (ring.0, search_ring) (rw same refl)
      | inr other ↦
          let inside : (q == first) ≡ false = let h = ring.2 in ground arith in
          rw (ring.0, search_ring)
            (rw other (
              rw ring.1
                (rw inside (search_ring-entry_of fuel m first id q f rest ring.3 (omega arith)))))
    ]

-- `set_current_process` goes round the ring once: it returns, for as many rounds as the ring has
-- processes, and makes the first process with the id the current one; where there is none it
-- changes nothing and says so.
set_current_process-entry_of :
    (fuel id : ℕ) (s : Processes) (e : ProcessEntry) (rest : List (ℕ × ProcessEntry))
    → Ring s.entries s.first_process ((s.first_process, e) ∷ rest)
    → length rest < fuel
    → set_current_process fuel id s
      ≡ returns (elim (entry_of id ((s.first_process, e) ∷ rest)) [
        | none ↦ (none, s)
        | some p ↦ (some p, record s { current_process = p })
      ])
unfolding set_current_process
set_current_process-entry_of fuel id s e rest ring enough =
    rw (search_ring-entry_of fuel s.entries s.first_process id s.first_process e rest ring enough)
      refl

abbrev pub Lacks : ℕ → List (ℕ × ProcessEntry) → Type 0
Lacks id [] = Unit
Lacks id ((p, e) ∷ rest) = ((e.id == id) ≡ false) × Lacks id rest

abbrev pub NotNull : List (ℕ × ProcessEntry) → Type 0
NotNull [] = Unit
NotNull ((p, e) ∷ rest) = (p ≢ 0) × NotNull rest

module _ (m : Entries) (first id : ℕ) (first_entry : ProcessEntry)
    (others : List (ℕ × ProcessEntry)) (whole : Ring m first ((first, first_entry) ∷ others))
    (lacks : Lacks id ((first, first_entry) ∷ others))
    (not_null : NotNull ((first, first_entry) ∷ others)) where
  search_to_null-endless :
      (fuel p : ℕ) (e : ProcessEntry) (rest : List (ℕ × ProcessEntry))
      → Ring m first ((p, e) ∷ rest)
      → Lacks id ((p, e) ∷ rest)
      → NotNull ((p, e) ∷ rest)
      → search_to_null fuel m p id ≡ out_of_fuel
  unfolding search_to_null
  search_to_null-endless zero p e rest ring lack null = refl
  search_to_null-endless (suc fuel) p e [] ring lack null =
      let more : (first == 0) ≡ false = let h = not_null.0 in ground arith in
      rw (ring.0, search_to_null)
        (rw lack.0 (
          rw ring.1
            (rw more (search_to_null-endless fuel first first_entry others whole lacks not_null))))
  search_to_null-endless (suc fuel) p e ((q, f) ∷ rest) ring lack null =
      let more : (q == 0) ≡ false = let h = null.1.0 in ground arith in
      rw (ring.0, search_to_null)
        (rw lack.0
          (rw ring.1 (rw more (search_to_null-endless fuel q f rest ring.3 lack.1 null.1))))

-- `get_process_by_id` never returns for an id that no process has: it waits for a NULL that a ring
-- does not have, and goes round for any number of rounds.
get_process_by_id-endless :
    (fuel id : ℕ) (s : Processes) (e : ProcessEntry) (rest : List (ℕ × ProcessEntry))
    → Ring s.entries s.first_process ((s.first_process, e) ∷ rest)
    → Lacks id ((s.first_process, e) ∷ rest)
    → NotNull ((s.first_process, e) ∷ rest)
    → get_process_by_id fuel id s ≡ out_of_fuel
unfolding get_process_by_id
get_process_by_id-endless fuel id s e rest ring lack null =
    search_to_null-endless s.entries s.first_process id e rest ring lack null fuel s.first_process e
      rest ring lack null
