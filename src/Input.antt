-- ===== src/Input.antt =====
-- kernel/keyboard/input.c and input.h: key codes, the two character tables, and `get_line`.
pub mod Codes
pub mod GetLine
pub mod Editor
pub mod Line
mod Tests
use bitloader.Prelude.{Bool, List, [], bit_and, if◌then◌else◌, ℕ, ◌==◌, ◌∷◌}

-- The members of `enum Keycode` that the code names; any other byte is cast to the type as it is.
abbrev pub kc_esc : ℕ
kc_esc = 0x01

abbrev pub kc_backspace : ℕ
kc_backspace = 0x0e

abbrev pub kc_tab : ℕ
kc_tab = 0x0f

abbrev pub kc_enter : ℕ
kc_enter = 0x1c

abbrev pub kc_left_shift : ℕ
kc_left_shift = 0x2a

abbrev pub kc_right_shift : ℕ
kc_right_shift = 0x36

-- A `uint8_t` table by its designated initialisers: an index that is not named holds 0.
abbrev pub entry : List (ℕ × ℕ) → ℕ → ℕ
entry [] i = 0
entry ((j, v) ∷ es) i = if i == j then v else entry es i

unfoldable pub ascii_table : List (ℕ × ℕ)
ascii_table =
    (0x02, b'1')
    ∷ (0x03, b'2')
    ∷ (0x04, b'3')
    ∷ (0x05, b'4')
    ∷ (0x06, b'5')
    ∷ (0x07, b'6')
    ∷ (0x08, b'7')
    ∷ (0x09, b'8')
    ∷ (0x0a, b'9')
    ∷ (0x0b, b'0')
    ∷ (0x0c, b'-')
    ∷ (0x0d, b'=')
    ∷ (0x0e, 8)
    ∷ (0x0f, 9)
    ∷ (0x10, b'q')
    ∷ (0x11, b'w')
    ∷ (0x12, b'e')
    ∷ (0x13, b'r')
    ∷ (0x14, b't')
    ∷ (0x15, b'y')
    ∷ (0x16, b'u')
    ∷ (0x17, b'i')
    ∷ (0x18, b'o')
    ∷ (0x19, b'p')
    ∷ (0x1a, b'[')
    ∷ (0x1b, b']')
    ∷ (0x1c, 10)
    ∷ (0x1e, b'a')
    ∷ (0x1f, b's')
    ∷ (0x20, b'd')
    ∷ (0x21, b'f')
    ∷ (0x22, b'g')
    ∷ (0x23, b'h')
    ∷ (0x24, b'j')
    ∷ (0x25, b'k')
    ∷ (0x26, b'l')
    ∷ (0x27, b';')
    ∷ (0x28, 39)
    ∷ (0x29, b'`')
    ∷ (0x2c, b'z')
    ∷ (0x2d, b'x')
    ∷ (0x2e, b'c')
    ∷ (0x2f, b'v')
    ∷ (0x30, b'b')
    ∷ (0x31, b'n')
    ∷ (0x32, b'm')
    ∷ (0x33, b',')
    ∷ (0x34, b'.')
    ∷ (0x35, b'/')
    ∷ (0x39, b' ')
    ∷ []

unfoldable pub shifted_ascii_table : List (ℕ × ℕ)
shifted_ascii_table =
    (0x02, b'!')
    ∷ (0x03, b'@')
    ∷ (0x04, b'#')
    ∷ (0x05, b'$')
    ∷ (0x06, b'%')
    ∷ (0x07, b'^')
    ∷ (0x08, b'&')
    ∷ (0x09, b'*')
    ∷ (0x0a, b'(')
    ∷ (0x0b, b')')
    ∷ (0x0c, b'_')
    ∷ (0x0d, b'+')
    ∷ (0x0e, 8)
    ∷ (0x0f, 9)
    ∷ (0x10, b'Q')
    ∷ (0x11, b'W')
    ∷ (0x12, b'E')
    ∷ (0x13, b'R')
    ∷ (0x14, b'T')
    ∷ (0x15, b'Y')
    ∷ (0x16, b'U')
    ∷ (0x17, b'I')
    ∷ (0x18, b'O')
    ∷ (0x19, b'P')
    ∷ (0x1a, b'{')
    ∷ (0x1b, b'}')
    ∷ (0x1c, 10)
    ∷ (0x1e, b'A')
    ∷ (0x1f, b'S')
    ∷ (0x20, b'D')
    ∷ (0x21, b'F')
    ∷ (0x22, b'G')
    ∷ (0x23, b'H')
    ∷ (0x24, b'J')
    ∷ (0x25, b'K')
    ∷ (0x26, b'L')
    ∷ (0x27, b':')
    ∷ (0x28, 34)
    ∷ (0x29, b'~')
    ∷ (0x2c, b'Z')
    ∷ (0x2d, b'X')
    ∷ (0x2e, b'C')
    ∷ (0x2f, b'V')
    ∷ (0x30, b'B')
    ∷ (0x31, b'N')
    ∷ (0x32, b'M')
    ∷ (0x33, b'<')
    ∷ (0x34, b'>')
    ∷ (0x35, b'?')
    ∷ (0x39, b' ')
    ∷ []

unfoldable pub keycode_to_ascii : ℕ → Bool → ℕ
keycode_to_ascii kc is_shifted =
    if is_shifted then entry shifted_ascii_table kc else entry ascii_table kc

unfoldable pub scancode_to_keycode : ℕ → ℕ
scancode_to_keycode sc = bit_and sc 0x7f
