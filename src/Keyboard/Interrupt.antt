-- ===== src/Keyboard/Interrupt.antt =====
-- `on_event` of kernel/keyboard/keyboard.c: which rings an interrupt reaches, and what stops it.
use bitloader.Prelude.{
  List, Option, [], ap, append-nil, append_assoc, arith, false, get_elem?, if◌then◌else◌, length,
  length-append, none, refl, some, suc, sym, true, ℕ, ◌++◌, ◌+◌, ◌∙◌, ◌∷◌, ◌≡◌,
}
use bitloader.Prelude.Run.{Run, fault, returns}
use bitloader.Keyboard.{Keyboard, KeyboardFileData, on_event, on_event_loop, push_event, set_ring}
use bitloader.Keyboard.Table.{
  AllLive, AllLive-frame, AllLive-kept, Distinct, TableOk, get_elem?-end, get_elem?-length, has,
}

abbrev pub push_ring : ℕ → Option KeyboardFileData → Option KeyboardFileData
push_ring scancode none = none
push_ring scancode (some fd) = some (push_event scancode fd)

-- The loop went through the entries `xs` of the table.
pub record Pushed (scancode : ℕ) (xs : List ℕ) (k : Keyboard) (out : Run Keyboard) : Type 0 where
  pub after : Keyboard
  pub result : out ≡ returns after
  pub table : after.table ≡ k.table
  pub counted : after.table_length ≡ k.table_length
  pub rings :
      (p : ℕ) → after.rings p ≡ (if has p xs then push_ring scancode (k.rings p) else k.rings p)

on_event_loop-step :
    (scancode n i p : ℕ) (fd : KeyboardFileData) (k : Keyboard)
    → get_elem? k.table i ≡ some p
    → k.rings p ≡ some fd
    → on_event_loop scancode (suc n) i k
      ≡ on_event_loop scancode n (i + 1) (set_ring p (some (push_event scancode fd)) k)
unfolding on_event_loop
on_event_loop-step scancode n i p fd k e r = ground arith

on_event_loop-Pushed :
    (scancode : ℕ) (pre xs : List ℕ) (k : Keyboard)
    → k.table ≡ pre ++ xs
    → Distinct xs
    → AllLive k.rings xs
    → Pushed scancode xs k (on_event_loop scancode (length xs) (length pre) k)
unfolding on_event_loop
on_event_loop-Pushed scancode pre [] k e d live = record {
  after = k;
  result = refl;
  table = refl;
  counted = refl;
  rings = λ p. refl;
}
on_event_loop-Pushed scancode pre (x ∷ xs) k e d live =
    let (fd, found) = live.0 in
    let k' = set_ring x (some (push_event scancode fd)) k in
    let at : get_elem? k.table (length pre) ≡ some x = rw e (get_elem?-length pre x xs) in
    let longer : length pre + 1 ≡ length (pre ++ (x ∷ [])) =
      omega (arith, length-append pre (x ∷ [])) in
    let rest =
      on_event_loop-Pushed scancode (pre ++ (x ∷ [])) xs k' (e ∙ sym (append_assoc pre (x ∷ []) xs))
        d.1 (AllLive-frame k.rings k'.rings xs (λ p i. ground (arith, d.0)) live.1) in
    rw (on_event_loop-step scancode (length xs) (length pre) x fd k at found, longer)
      (record {
        after = rest.after;
        result = rest.result;
        table = rest.table;
        counted = rest.counted;
        rings = λ p. rest.rings p ∙ ground (arith, d.0, found);
      })

AllLive-pushed :
    (scancode : ℕ) (rings rings' : ℕ → Option KeyboardFileData) (xs : List ℕ)
    → ((p : ℕ) → has p xs ≡ true → rings' p ≡ push_ring scancode (rings p))
    → AllLive rings xs
    → AllLive rings' xs
AllLive-pushed scancode rings rings' [] same h = tt
AllLive-pushed scancode rings rings' (x ∷ xs) same h = (
  (push_event scancode h.0.0, same x (ground arith) ∙ ap (push_ring scancode) h.0.1),
  AllLive-pushed scancode rings rings' xs (λ p i. same p (ground (arith, i))) h.1,
)

-- With a sound table, an interrupt puts the event into the ring of every open file, each once,
-- touches no other ring, and leaves the table as it was.
pub on_event-Pushed :
    (scancode : ℕ) (k : Keyboard)
    → TableOk k
    → (k' : Keyboard) × (on_event scancode k ≡ returns k')
      × TableOk k'
      × ((p : ℕ)
          → k'.rings p ≡ (if has p k.table then push_ring scancode (k.rings p) else k.rings p))
unfolding on_event
on_event-Pushed scancode k ok =
    let out = on_event_loop-Pushed scancode [] k.table k refl ok.distinct ok.live in
    (
      out.after,
      ap (λ n. on_event_loop scancode n 0 k) ok.counted ∙ out.result,
      record {
        counted = out.counted ∙ ok.counted ∙ ap length (sym out.table);
        distinct = rw out.table ok.distinct;
        live = rw out.table (
            AllLive-pushed scancode k.rings out.after.rings k.table (λ p i. out.rings p ∙ rw i)
              ok.live);
      },
      out.rings,
    )

on_event_loop-none :
    (scancode n i p : ℕ) (k : Keyboard)
    → get_elem? k.table i ≡ some p
    → k.rings p ≡ none
    → on_event_loop scancode (suc n) i k ≡ fault
unfolding on_event_loop
on_event_loop-none scancode n i p k e r = ground arith

-- An entry whose ring is gone stops the loop.
pub on_event_loop-dead :
    (scancode n : ℕ) (pre xs post : List ℕ) (p : ℕ) (k : Keyboard) (rounds : ℕ)
    → rounds ≡ suc (length xs + n)
    → k.table ≡ pre ++ (xs ++ (p ∷ post))
    → has p xs ≡ false
    → AllLive k.rings xs
    → k.rings p ≡ none
    → on_event_loop scancode rounds (length pre) k ≡ fault
on_event_loop-dead scancode n pre [] post p k rounds r e apart live gone =
    rw r (
      on_event_loop-none scancode (0 + n) (length pre) p k (rw e (get_elem?-length pre p post))
        gone)
on_event_loop-dead scancode n pre (x ∷ xs) post p k rounds r e apart live gone =
    let (fd, found) = live.0 in
    let k' = set_ring x (some (push_event scancode fd)) k in
    let at : get_elem? k.table (length pre) ≡ some x =
      rw e (get_elem?-length pre x (xs ++ (p ∷ post))) in
    let longer : length pre + 1 ≡ length (pre ++ (x ∷ [])) =
      omega (arith, length-append pre (x ∷ [])) in
    rw (r, on_event_loop-step scancode (suc (length xs) + n) (length pre) x fd k at found, longer)
      (on_event_loop-dead scancode n (pre ++ (x ∷ [])) xs post p k' (suc (length xs) + n)
        (omega arith) (e ∙ sym (append_assoc pre (x ∷ []) (xs ++ (p ∷ post)))) (ground arith)
        (AllLive-kept k.rings x (push_event scancode fd) xs live.1) (ground arith))

on_event_loop-end :
    (scancode n i : ℕ) (k : Keyboard)
    → get_elem? k.table i ≡ none
    → on_event_loop scancode (suc n) i k ≡ fault
unfolding on_event_loop
on_event_loop-end scancode n i k e = ground arith

-- One round more than the table has entries reads past its end.
pub on_event_loop-past :
    (scancode : ℕ) (pre xs : List ℕ) (k : Keyboard) (rounds : ℕ)
    → rounds ≡ suc (length xs)
    → k.table ≡ pre ++ xs
    → AllLive k.rings xs
    → on_event_loop scancode rounds (length pre) k ≡ fault
on_event_loop-past scancode pre [] k rounds r e live =
    let whole : k.table ≡ pre = e ∙ append-nil pre in
    rw r (on_event_loop-end scancode 0 (length pre) k (rw whole (get_elem?-end pre)))
on_event_loop-past scancode pre (x ∷ xs) k rounds r e live =
    let (fd, found) = live.0 in
    let k' = set_ring x (some (push_event scancode fd)) k in
    let at : get_elem? k.table (length pre) ≡ some x = rw e (get_elem?-length pre x xs) in
    let longer : length pre + 1 ≡ length (pre ++ (x ∷ [])) =
      omega (arith, length-append pre (x ∷ [])) in
    rw (r, on_event_loop-step scancode (suc (length xs)) (length pre) x fd k at found, longer)
      (on_event_loop-past scancode (pre ++ (x ∷ [])) xs k' (suc (length xs)) refl
        (e ∙ sym (append_assoc pre (x ∷ []) xs))
        (AllLive-kept k.rings x (push_event scancode fd) xs live.1))
