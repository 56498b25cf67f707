-- ===== src/Input/Codes.antt =====
-- The character tables of kernel/keyboard/input.c.
use bitloader.Prelude.{
  Bool, List, Option, [], arith, false, if◌then◌else◌, none, refl, some, true, ℕ, ◌&&◌, ◌+◌, ◌<◌,
  ◌==◌, ◌||◌, ◌∷◌, ◌≡◌, ◌≢◌,
}
use bitloader.Prelude.Bytes.{all_below, all_below_sound}
use bitloader.Input.{ascii_table, keycode_to_ascii, scancode_to_keycode, shifted_ascii_table}

-- The first key of a table with a given character.
abbrev pub key_of : List (ℕ × ℕ) → ℕ → Option ℕ
key_of [] chr = none
key_of ((j, v) ∷ es) chr = if chr == v then some j else key_of es chr

abbrev is_key : List (ℕ × ℕ) → ℕ → ℕ → Bool
is_key es chr kc = elim (key_of es chr) [ none ↦ false | some j ↦ j == kc ]

is_key-some : (es : List (ℕ × ℕ)) (chr kc : ℕ) → is_key es chr kc ≡ true → key_of es chr ≡ some kc
is_key-some es chr kc h = ground arith

abbrev pub table_of : Bool → List (ℕ × ℕ)
unfolding ascii_table shifted_ascii_table
table_of is_shifted = if is_shifted then shifted_ascii_table else ascii_table

round_trip :
    (is_shifted : Bool)
    → all_below 256 (λ kc.
      keycode_to_ascii kc is_shifted == 0
      || is_key (table_of is_shifted) (keycode_to_ascii kc is_shifted) kc)
      ≡ true
unfolding keycode_to_ascii ascii_table shifted_ascii_table all_below
round_trip true = refl
round_trip false = refl

-- Every key that types a character is the only key that does, with shift held and without: the
-- key can be read back from the character.
keycode_to_ascii_unique :
    (kc : ℕ) (is_shifted : Bool)
    → kc < 256
    → keycode_to_ascii kc is_shifted ≢ 0
    → key_of (table_of is_shifted) (keycode_to_ascii kc is_shifted) ≡ some kc
keycode_to_ascii_unique kc is_shifted small types =
    let test = all_below_sound 256 _ kc (round_trip is_shifted) small in
    is_key-some (table_of is_shifted) (keycode_to_ascii kc is_shifted) kc (ground arith)

codes :
    all_below 128 (λ sc. (scancode_to_keycode sc == sc) && (scancode_to_keycode (sc + 128) == sc))
    ≡ true
unfolding scancode_to_keycode all_below
codes = refl

-- A key's press and its release carry the same key code, below 128.
pub scancode_to_keycode-release :
    (scancode : ℕ)
    → scancode < 128
    → (scancode_to_keycode scancode ≡ scancode) × (scancode_to_keycode (scancode + 128) ≡ scancode)
scancode_to_keycode-release scancode small =
    ground (arith, all_below_sound 128 _ scancode codes small)
