-- ===== src/Keyboard/Close.antt =====
-- `keyboard_close` of kernel/keyboard/keyboard.c.
use bitloader.Prelude.{
  List, [], ap, append_assoc, arith, false, get_or, if◌then◌else◌, length, length-append, none,
  refl, set, suc, sym, take, zero, ℕ, ◌++◌, ◌+◌, ◌<◌, ◌==◌, ◌^◌, ◌∙◌, ◌∷◌, ◌≡◌, ◌≢◌,
}
use bitloader.Prelude.Run.{fault}
use bitloader.Prelude.Words.{sub32}
use bitloader.Keyboard.{Keyboard, keyboard_close, on_event, on_event_loop, replace_index}
use bitloader.Keyboard.Table.{
  AllLive-front, AllLive-without, Distinct, Distinct-apart, Distinct-front, TableOk,
}
use bitloader.Keyboard.Interrupt.{on_event_loop-dead}

last-set : (n : ℕ) (xs : List ℕ) (v : ℕ) → take n (set xs n v) ≡ take n xs
last-set n [] v = refl
last-set zero (x ∷ xs) v = refl
last-set (suc n) (x ∷ xs) v = ap (λ l. x ∷ l) (last-set n xs v)

take-all_but_last : (xs : List ℕ) (x : ℕ) → take (length xs) (xs ++ (x ∷ [])) ≡ xs
take-all_but_last [] x = refl
take-all_but_last (y ∷ xs) x = ap (λ l. y ∷ l) (take-all_but_last xs x)

-- Closing any file but the only one takes the file opened last out of the table.
close-table :
    (moved p : ℕ) (k : Keyboard) (xs : List ℕ) (last : ℕ)
    → k.table ≡ xs ++ (last ∷ [])
    → k.table_length ≡ suc (length xs)
    → 0 < length xs
    → length xs < 2 ^ 31
    → p ≢ k.table_ptr
    → ((keyboard_close moved p k).table ≡ xs)
      × ((keyboard_close moved p k).table_length ≡ length xs)
      × ((q : ℕ) → (keyboard_close moved p k).rings q ≡ (if q == p then none else k.rings q))
unfolding keyboard_close replace_index
close-table moved p k xs last e n some_left small ne =
    let less : sub32 k.table_length 1 ≡ length xs = omega arith in
    let more : (length xs == 0) ≡ false = ground arith in
    let miss : (p == k.table_ptr) ≡ false = ground arith in
    (
      rw (less, more, miss)
          (last-set (length xs) k.table (get_or k.table (length xs) 0)
            ∙ ap (take (length xs)) e
            ∙ take-all_but_last xs last),
      rw (less, more),
      λ q. rw (less, more),
    )

-- Closing a keyboard file that was not opened last leaves its freed ring in the table and drops
-- the last one: the next interrupt follows the dangling pointer.
keyboard_close-dangling :
    (scancode moved p last : ℕ) (k : Keyboard) (xs post : List ℕ)
    → TableOk k
    → k.table ≡ (xs ++ (p ∷ post)) ++ (last ∷ [])
    → length k.table < 2 ^ 31
    → p ≢ k.table_ptr
    → on_event scancode (keyboard_close moved p k) ≡ fault
unfolding on_event
keyboard_close-dangling scancode moved p last k xs post ok e small ne =
    let front = xs ++ (p ∷ post) in
    let size : length k.table ≡ length front + 1 = ap length e ∙ length-append front (last ∷ []) in
    let size' : length front ≡ length xs + suc (length post) = length-append xs (p ∷ post) in
    let closed =
      close-table moved p k front last e (ok.counted ∙ omega arith) (omega arith) (omega arith)
        ne in
    let whole : k.table ≡ xs ++ (p ∷ (post ++ (last ∷ []))) =
      e ∙ append_assoc xs (p ∷ post) (last ∷ []) in
    let apart = Distinct-apart xs p (post ++ (last ∷ [])) (rw whole at ok.distinct) in
    let live = AllLive-front k.rings xs (p ∷ (post ++ (last ∷ []))) (rw whole at ok.live) in
    ap (λ r. on_event_loop scancode r 0 (keyboard_close moved p k)) closed.1
    ∙ on_event_loop-dead scancode (length post) [] xs post p (keyboard_close moved p k)
        (length front) (omega arith) closed.0 apart
        (AllLive-without k.rings (keyboard_close moved p k).rings p xs closed.2 apart live)
        (closed.2 p ∙ ground arith)

-- Closing the file opened last leaves a sound table of the others.
keyboard_close-last :
    (moved p : ℕ) (k : Keyboard) (xs : List ℕ)
    → TableOk k
    → k.table ≡ xs ++ (p ∷ [])
    → 0 < length xs
    → length k.table < 2 ^ 31
    → p ≢ k.table_ptr
    → TableOk (keyboard_close moved p k) × ((keyboard_close moved p k).table ≡ xs)
keyboard_close-last moved p k xs ok e some_left small ne =
    let size : length k.table ≡ length xs + 1 = ap length e ∙ length-append xs (p ∷ []) in
    let closed =
      close-table moved p k xs p e (ok.counted ∙ omega arith) some_left (omega arith) ne in
    let distinct : Distinct (xs ++ (p ∷ [])) = rw e at ok.distinct in
    (
      record {
        counted = closed.1 ∙ ap length (sym closed.0);
        distinct = rw closed.0 (Distinct-front xs (p ∷ []) distinct);
        live = rw closed.0 (
            AllLive-without k.rings (keyboard_close moved p k).rings p xs closed.2
              (Distinct-apart xs p [] distinct)
              (AllLive-front k.rings xs (p ∷ []) (rw e at ok.live)));
      },
      closed.0,
    )
