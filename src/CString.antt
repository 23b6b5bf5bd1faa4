-- ===== src/CString.antt =====
-- The C library's string functions that the server and the client call, over byte lists.
-- A C string is the list of the bytes before its terminating zero.
pub mod Token
pub mod Number
pub mod Words
pub mod Last
mod Tests
use Prim.Native.Char.{code}
use Prim.Native.String.{String}
use chat_app_in_c.Common.{
  ℕ, zero, suc, ◌+◌, ◌-◌, ◌*◌, ◌/◌, ◌%◌, ◌^◌, ◌<◌, ◌≡◌, ◌↔◌, refl, Bool, true, false, ◌&&◌, ◌||◌,
  Option, none, some, List, [], ◌∷◌, ◌++◌, min, length, take, ltb, leb, ◌==◌, if◌then◌else◌, arith,
}

abbrev pub Bytes : Type 0
Bytes = List ℕ

-- The bytes of an ASCII literal.
abbrev pub codes : String → Bytes
codes String.[] = []
codes (String.◌∷◌ c s) = code c ∷ codes s

-- What `buf[n] = '\0'` leaves to read: the bytes before the first zero.
unfoldable pub c_string : Bytes → Bytes
c_string [] = []
c_string (c ∷ s) = if c == 0 then [] else c ∷ c_string s

-- `strcmp(a, b) == 0`
unfoldable pub str_eq : Bytes → Bytes → Bool
str_eq [] [] = true
str_eq [] (b ∷ bs) = false
str_eq (a ∷ as') [] = false
str_eq (a ∷ as') (b ∷ bs) = (a == b) && str_eq as' bs

-- `strnlen(s, n)`
abbrev pub strnlen : Bytes → ℕ → ℕ
strnlen s n = min (length s) n

-- `strncpy(dst, s, n - 1); dst[n - 1] = '\0'`, and `snprintf(dst, n, "%s", s)`
abbrev pub copy_into : ℕ → Bytes → Bytes
copy_into n s = take (n - 1) s

-- `isalnum` in the C locale
unfoldable pub isalnum : ℕ → Bool
isalnum c = (leb b'0' c && leb c b'9') || (leb b'A' c && leb c b'Z') || (leb b'a' c && leb c b'z')

module _ (delim : ℕ → Bool) where
  unfoldable pub skip : Bytes → Bytes
  skip [] = []
  skip (c ∷ s) = if delim c then skip s else c ∷ s

  unfoldable pub word : Bytes → Bytes
  word [] = []
  word (c ∷ s) = if delim c then [] else c ∷ word s

  unfoldable pub rest : Bytes → Bytes
  rest [] = []
  rest (c ∷ s) = if delim c then s else rest s

  unfoldable pub cut : Bytes → Option Bytes × Bytes
  unfolding word rest
  cut [] = (none, [])
  cut (c ∷ s) = (some (word (c ∷ s)), rest (c ∷ s))

  -- `strtok`: the token, if there is one, and the text that the next call goes on from.
  unfoldable pub strtok : Bytes → Option Bytes × Bytes
  unfolding skip cut
  strtok s = cut (skip s)

-- The delimiter sets of the calls
abbrev pub is_blank : ℕ → Bool
is_blank c = c == b' '

abbrev pub is_newline : ℕ → Bool
is_newline c = c == 10

abbrev pub is_blank_nl : ℕ → Bool
is_blank_nl c = (c == b' ') || (c == 10)

abbrev pub is_blank_crnl : ℕ → Bool
is_blank_crnl c = (c == b' ') || (c == 13) || (c == 10)

-- `isspace` in the C locale
abbrev isspace : ℕ → Bool
isspace c = (c == b' ') || (leb 9 c && leb c 13)

abbrev isdigit : ℕ → Bool
isdigit c = leb b'0' c && leb c b'9'

abbrev pub ulong_max : ℕ
ulong_max = 2 ^ 64 - 1

-- The value of the leading digits, `n` being what was read before them
digits_value : Bytes → ℕ → ℕ
digits_value [] n = n
digits_value (c ∷ s) n =
    let more = digits_value s (n * 10 + (c - b'0')) in if isdigit c then more else n

abbrev clamp_ulong : ℕ → ℕ
clamp_ulong n = if leb n ulong_max then n else ulong_max

-- A minus sign negates modulo 2^64; what is too large gives `ULONG_MAX`, whatever the sign.
negate_ulong : ℕ → ℕ
negate_ulong n = if leb n ulong_max then (2 ^ 64 - n) % 2 ^ 64 else ulong_max

strtoul_sign : Bytes → ℕ
unfolding digits_value negate_ulong
strtoul_sign [] = 0
strtoul_sign (c ∷ s) =
    if c == b'-'
    then negate_ulong (digits_value s 0)
    else if c == b'+'
    then clamp_ulong (digits_value s 0)
    else clamp_ulong (digits_value (c ∷ s) 0)

-- `strtoul(s, NULL, 10)`
unfoldable pub strtoul : Bytes → ℕ
unfolding skip strtoul_sign
strtoul s = strtoul_sign (skip isspace s)

-- `%zu` and `%d` at a number that is not negative; twenty digits are enough for 64 bits.
unfoldable pub decimal_digits : ℕ → ℕ → Bytes → Bytes
decimal_digits zero n out = out
decimal_digits (suc fuel) n out =
    let all = (b'0' + n % 10) ∷ out in
    let more = decimal_digits fuel (n / 10) all in if ltb n 10 then all else more

unfoldable pub decimal : ℕ → Bytes
decimal n = decimal_digits 20 n []

-- `strchr`: the text before the first such byte, and the text behind it
unfoldable pub strchr : ℕ → Bytes → Option (Bytes × Bytes)
strchr d [] = none
strchr d (c ∷ s) =
    if c == d
    then some ([], s)
    else elim (strchr d s) [ none ↦ none | some (before, behind) ↦ some (c ∷ before, behind) ]

-- `strncmp(s, prefix, strlen(prefix)) == 0`
unfoldable pub starts_with : Bytes → Bytes → Bool
starts_with s [] = true
starts_with [] (b ∷ bs) = false
starts_with (a ∷ as') (b ∷ bs) = (a == b) && starts_with as' bs

-- `strrchr`: the text from the last such byte on
unfoldable pub strrchr : ℕ → Bytes → Option Bytes
strrchr d [] = none
strrchr d (c ∷ s) = elim (strrchr d s) [
  | some t ↦ some t
  | none ↦ if c == d then some (c ∷ s) else none
]

pub str_eq_iff : (a b : Bytes) → (str_eq a b ≡ true) ↔ (a ≡ b)
unfolding str_eq
str_eq_iff [] [] = (λ _. refl, λ _. refl)
str_eq_iff [] (b ∷ bs) = ground arith
str_eq_iff (a ∷ as') [] = ground arith
str_eq_iff (a ∷ as') (b ∷ bs) = ground (arith, str_eq_iff as' bs)
