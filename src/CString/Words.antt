-- ===== src/CString/Words.antt =====
-- Words and messages: the arguments of a command line that `strtok` gives back whole.
use chat_app_in_c.Common.{
  ℕ, zero, suc, ◌+◌, ◌/◌, ◌%◌, ◌≡◌, refl, Bool, true, false, ◌||◌, some, [], ◌∷◌, ◌++◌, ltb, ◌==◌,
  length, ◌≤◌, inl, inr, Bool-cases, ap, arith,
}
use chat_app_in_c.CString.{
  Bytes, c_string, strtok, is_blank, is_newline, is_blank_nl, is_blank_crnl, decimal_digits,
  decimal,
}
use chat_app_in_c.CString.Token.{Lacks, strtok-append, strtok-last}

-- Blanks, ends of line and the zero that ends a string
abbrev pub is_separator : ℕ → Bool
is_separator c = is_blank_crnl c || (c == 0)

-- An end of line, or the zero that ends a string
abbrev pub is_line_end : ℕ → Bool
is_line_end c = is_newline c || (c == 0)

-- A word of a command line: at least one byte, and no separator
abbrev pub IsWord : Bytes → Type 0
IsWord [] = ⊥
IsWord (c ∷ s) = Lacks is_separator (c ∷ s)

-- The text of a message: at least one byte, in one line
abbrev pub IsMessage : Bytes → Type 0
IsMessage [] = ⊥
IsMessage (c ∷ s) = Lacks is_line_end (c ∷ s)

-- Every byte that the first test accepts is accepted by the second.
abbrev pub Within : (ℕ → Bool) → (ℕ → Bool) → Type 0
Within p q = (c : ℕ) → q c ≡ false → p c ≡ false

pub Lacks-Within : {p q : ℕ → Bool} (s : Bytes) → Within p q → Lacks q s → Lacks p s
Lacks-Within [] w h = tt
Lacks-Within (c ∷ s) w h = (w c h.0, Lacks-Within s w h.1)

pub Lacks-append : (p : ℕ → Bool) (s r : Bytes) → Lacks p s → Lacks p r → Lacks p (s ++ r)
Lacks-append p [] r h k = k
Lacks-append p (c ∷ s) r h k = (h.0, Lacks-append p s r h.1 k)

pub IsWord-Lacks : {p : ℕ → Bool} (s : Bytes) → Within p is_separator → IsWord s → Lacks p s
IsWord-Lacks [] w h = tt
IsWord-Lacks (c ∷ s) w h = Lacks-Within (c ∷ s) w h

pub IsMessage-Lacks : {p : ℕ → Bool} (s : Bytes) → Within p is_line_end → IsMessage s → Lacks p s
IsMessage-Lacks [] w h = tt
IsMessage-Lacks (c ∷ s) w h = Lacks-Within (c ∷ s) w h

pub blank_Within : Within is_blank is_separator
blank_Within c h = ground (arith, h)

pub blank_nl_Within : Within is_blank_nl is_separator
blank_nl_Within c h = ground (arith, h)

pub blank_crnl_Within : Within is_blank_crnl is_separator
blank_crnl_Within c h = ground (arith, h)

pub zero_Within : Within (λ c. c == 0) is_separator
zero_Within c h = ground (arith, h)

pub newline_Within : Within is_newline is_line_end
newline_Within c h = ground (arith, h)

pub zero_Within_line : Within (λ c. c == 0) is_line_end
zero_Within_line c h = ground (arith, h)

-- A text without a zero is the whole C string.
pub c_string_self : (s : Bytes) → Lacks (λ c. c == 0) s → c_string s ≡ s
unfolding c_string
c_string_self [] h = refl
c_string_self (c ∷ s) h = rw h.0 (ap (◌∷◌ c) (c_string_self s h.1))

module _ (delim : ℕ → Bool) where
  -- A word in front of a delimiter is the first token, and what is behind that delimiter is left.
  pub strtok-word :
      (s r : Bytes) (d : ℕ)
      → Within delim is_separator
      → IsWord s
      → delim d ≡ true
      → strtok delim (s ++ d ∷ r) ≡ (some s, r)
  strtok-word [] r d w h e = absurd h
  strtok-word (c ∷ s) r d w h e = strtok-append delim c s r d (Lacks-Within (c ∷ s) w h) e

  pub strtok-word_last :
      (s : Bytes) → Within delim is_separator → IsWord s → strtok delim s ≡ (some s, [])
  strtok-word_last [] w h = absurd h
  strtok-word_last (c ∷ s) w h = strtok-last delim c s (Lacks-Within (c ∷ s) w h)

  pub strtok-message :
      (s r : Bytes) (d : ℕ)
      → Within delim is_line_end
      → IsMessage s
      → delim d ≡ true
      → strtok delim (s ++ d ∷ r) ≡ (some s, r)
  strtok-message [] r d w h e = absurd h
  strtok-message (c ∷ s) r d w h e = strtok-append delim c s r d (Lacks-Within (c ∷ s) w h) e

  pub strtok-message_last :
      (s : Bytes) → Within delim is_line_end → IsMessage s → strtok delim s ≡ (some s, [])
  strtok-message_last [] w h = absurd h
  strtok-message_last (c ∷ s) w h = strtok-last delim c s (Lacks-Within (c ∷ s) w h)

digit_no_separator : (n : ℕ) → is_separator (b'0' + n % 10) ≡ false
digit_no_separator n = ground arith

with_digit : (n : ℕ) (out : Bytes) → IsWord out → IsWord ((b'0' + n % 10) ∷ out)
with_digit n [] h = absurd h
with_digit n (c ∷ out) h = (digit_no_separator n, h)

decimal_digits-IsWord : (fuel n : ℕ) (out : Bytes) → IsWord out → IsWord (decimal_digits fuel n out)
unfolding decimal_digits
decimal_digits-IsWord zero n out h = h
decimal_digits-IsWord (suc fuel) n out h = elim (Bool-cases (ltb n 10)) [
  | inl e ↦ rw e (with_digit n out h)
  | inr e ↦ rw e (decimal_digits-IsWord fuel (n / 10) ((b'0' + n % 10) ∷ out) (with_digit n out h))
]

some_digits : (fuel n : ℕ) → IsWord (decimal_digits (suc fuel) n [])
unfolding decimal_digits
some_digits fuel n = elim (Bool-cases (ltb n 10)) [
  | inl e ↦ rw e (digit_no_separator n, tt)
  | inr e ↦
      rw e (decimal_digits-IsWord fuel (n / 10) ((b'0' + n % 10) ∷ []) (digit_no_separator n, tt))
]

-- A number in decimal is a word.
pub decimal-IsWord : (n : ℕ) → IsWord (decimal n)
unfolding decimal
decimal-IsWord n = some_digits 19 n

decimal_digits-length :
    (fuel n : ℕ) (out : Bytes) → length (decimal_digits fuel n out) ≤ fuel + length out
unfolding decimal_digits
decimal_digits-length zero n out = omega arith
decimal_digits-length (suc fuel) n out =
    ground (arith, decimal_digits-length fuel (n / 10) ((b'0' + n % 10) ∷ out))

pub length-decimal : (n : ℕ) → length (decimal n) ≤ 20
unfolding decimal
length-decimal n = omega (arith, decimal_digits-length 20 n [])
