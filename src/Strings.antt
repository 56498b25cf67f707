-- ===== src/Strings.antt =====
-- lib/goblibc/src/string.c and ctype.c: strings and bytes. A string that is only read is its bytes
-- from the pointer on; what is written is memory at an address.
pub mod Compare
pub mod Copy
mod Tests
use bitloader.Prelude.{
  Bool, List, get_or, if◌then◌else◌, leb, suc, zero, ℕ, ◌%◌, ◌&&◌, ◌+◌, ◌-◌, ◌==◌, ◌||◌,
}
use bitloader.Prelude.Int.{add_ℤ, pos, sub_ℕ, ℤ, ◌==ℤ◌}
use bitloader.Prelude.Loops.{for_range}
use bitloader.Prelude.Run.{Run, out_of_fuel, returns, ◌>>=◌}

abbrev pub Bytes : Type 0
Bytes = ℕ → ℕ

-- A string literal, with NULs behind it.
abbrev pub literal : List ℕ → Bytes
literal cs i = get_or cs i 0

abbrev pub poke : ℕ → ℕ → Bytes → Bytes
poke p v mem q = if q == p then v else mem q

unfoldable pub memcpy : (dest source size : ℕ) → Bytes → Bytes
memcpy dest source size mem = for_range size 0 (λ i m. poke (dest + i) (m (source + i)) m) mem

unfoldable pub memset : (buf n size : ℕ) → Bytes → Bytes
memset buf n size mem = for_range size 0 (λ i m. poke (buf + i) (n % 256) m) mem

-- The search for the NUL, on fuel.
unfoldable pub strlen_loop : ℕ → Bytes → ℕ → Run ℕ
strlen_loop zero str i = out_of_fuel
strlen_loop (suc fuel) str i =
    let rest = strlen_loop fuel str (i + 1) in if str i == 0 then returns i else rest

pub strlen : ℕ → Bytes → Run ℕ
strlen fuel str = strlen_loop fuel str 0

-- `left` rounds are left of the `n`.
unfoldable pub strnlen_loop : (left : ℕ) → Bytes → ℕ → ℕ
strnlen_loop zero str i = i
strnlen_loop (suc left) str i =
    let rest = strnlen_loop left str (i + 1) in if str i == 0 then i else rest

pub strnlen : Bytes → ℕ → ℕ
strnlen str n = strnlen_loop n str 0

-- The sum of the bytes' differences.
unfoldable pub memcmp_loop : (left : ℕ) → Bytes → Bytes → ℕ → ℤ → ℤ
memcmp_loop zero buf1 buf2 i sum = sum
memcmp_loop (suc left) buf1 buf2 i sum =
    memcmp_loop left buf1 buf2 (i + 1) (add_ℤ sum (sub_ℕ (buf1 i) (buf2 i)))

pub memcmp : Bytes → Bytes → ℕ → ℤ
memcmp buf1 buf2 size = memcmp_loop size buf1 buf2 0 (pos 0)

unfoldable pub strcpy : (fuel dest source : ℕ) → Bytes → Run Bytes
strcpy zero dest source mem = out_of_fuel
strcpy (suc fuel) dest source mem =
    let m = poke dest (mem source) mem in
    let rest = strcpy fuel (dest + 1) (source + 1) m in if mem source == 0 then returns m else rest

-- Both strings are given by their bytes and the index that the pointer has reached.
unfoldable pub strcmp : (fuel : ℕ) → Bytes → ℕ → Bytes → ℕ → Run ℤ
strcmp zero s1 i s2 j = out_of_fuel
strcmp (suc fuel) s1 i s2 j =
    let rest = strcmp fuel s1 (i + 1) s2 (j + 1) in
    if s1 i == 0
    then returns (sub_ℕ (s1 i) (s2 j))
    else if s1 i == s2 j
    then rest
    else returns (sub_ℕ (s1 i) (s2 j))

-- `more` characters may be compared behind the one at `i`.
unfoldable pub strncmp_loop : (more : ℕ) → Bytes → Bytes → ℕ → ℤ
strncmp_loop zero s1 s2 i = sub_ℕ (s1 i) (s2 i)
strncmp_loop (suc more) s1 s2 i =
    let rest = strncmp_loop more s1 s2 (i + 1) in
    if s1 i == 0 then sub_ℕ (s1 i) (s2 i) else if s1 i == s2 i then rest else sub_ℕ (s1 i) (s2 i)

-- The loop is entered before the length is looked at.
unfoldable pub strncmp : Bytes → Bytes → ℕ → ℤ
strncmp s1 s2 len = strncmp_loop (len - 1) s1 s2 0

-- `left` places are left at which `substr` is looked for, and the string's end is compared too.
strstr_loop : (fuel left i : ℕ) → Bytes → Bytes → Run ℕ
strstr_loop fuel zero i str substr = returns 0
strstr_loop fuel (suc left) i str substr =
    let rest = strstr_loop fuel left (i + 1) str substr in
    do order ← strcmp fuel str i substr 0; if order ==ℤ pos 0 then returns i else rest

-- The offset of the result; offset 0 also stands for a string that is not found.
pub strstr : ℕ → Bytes → Bytes → Run ℕ
strstr fuel str substr = do
  len ← strlen fuel str
  sublen ← strlen fuel substr
  strstr_loop fuel (if leb sublen len then len - sublen + 1 else 0) 0 str substr

unfoldable pub tolower : ℕ → ℕ
tolower c = if leb b'A' c && leb c b'Z' then c + 32 else c

unfoldable pub toupper : ℕ → ℕ
toupper c = if leb b'a' c && leb c b'z' then c - 32 else c

unfoldable pub isalpha : ℕ → Bool
isalpha c = (leb b'a' c && leb c b'z') || (leb b'A' c && leb c b'Z')

unfoldable pub isdigit : ℕ → Bool
isdigit c = leb b'0' c && leb c b'9'

unfoldable pub isalnum : ℕ → Bool
isalnum c = (leb b'a' c && leb c b'z') || ((leb b'A' c && leb c b'Z') || (leb b'0' c && leb c b'9'))

unfoldable pub isspace : ℕ → Bool
isspace c = c == b' ' || c == 9
