-- ===== src/CString/Number.antt =====
-- Numbers printed by `%zu` and read by `strtoul`, as the two programs exchange file sizes.
use native.Mathlib.Nat.{pow-suc}
use chat_app_in_c.Common.{
  ℕ, zero, suc, ◌+◌, ◌/◌, ◌%◌, ◌^◌, ◌<◌, ◌≤◌, ◌≡◌, true, [], ◌∷◌, ltb, inl, inr, Bool-cases, ◌∙◌,
  arith,
}
use chat_app_in_c.CString.{
  Bytes, isdigit, digits_value, decimal_digits, decimal, strtoul, ulong_max,
}

abbrev StartsWithDigit : Bytes → Type 0
StartsWithDigit [] = ⊥
StartsWithDigit (c ∷ s) = isdigit c ≡ true

isdigit_digit : (n : ℕ) → isdigit (b'0' + n % 10) ≡ true
isdigit_digit n = ground arith

decimal_digits-StartsWithDigit :
    (fuel n : ℕ) (out : Bytes) → StartsWithDigit out → StartsWithDigit (decimal_digits fuel n out)
unfolding decimal_digits
decimal_digits-StartsWithDigit zero n out h = h
decimal_digits-StartsWithDigit (suc fuel) n out h = elim (Bool-cases (ltb n 10)) [
  | inl e ↦ rw e (isdigit_digit n)
  | inr e ↦
      rw e (decimal_digits-StartsWithDigit fuel (n / 10) ((b'0' + n % 10) ∷ out) (isdigit_digit n))
]

-- Reading the digits of `n` in front of a text is reading the text with `n` read before it.
digits_value-decimal :
    (fuel n : ℕ) (out : Bytes)
    → n < 10 ^ fuel
    → digits_value (decimal_digits fuel n out) 0 ≡ digits_value out n
unfolding decimal_digits digits_value
digits_value-decimal zero n out h = let e : n ≡ 0 = omega arith in rw e
digits_value-decimal (suc fuel) n out h = ground (
  arith,
  pow-suc 10 fuel,
  isdigit_digit n,
  digits_value-decimal fuel (n / 10) ((b'0' + n % 10) ∷ out),
)

strtoul_digits :
    (s : Bytes) → StartsWithDigit s → digits_value s 0 ≤ ulong_max → strtoul s ≡ digits_value s 0
unfolding strtoul
strtoul_digits [] h b = elim h [ ]
strtoul_digits (c ∷ s) h b = ground arith

decimal-StartsWithDigit : (fuel n : ℕ) → 0 < fuel → StartsWithDigit (decimal_digits fuel n [])
unfolding decimal_digits
decimal-StartsWithDigit zero n h = elim h [ ]
decimal-StartsWithDigit (suc fuel) n h = elim (Bool-cases (ltb n 10)) [
  | inl e ↦ rw e (isdigit_digit n)
  | inr e ↦
      rw e (decimal_digits-StartsWithDigit fuel (n / 10) ((b'0' + n % 10) ∷ []) (isdigit_digit n))
]

strtoul-decimal_digits :
    (fuel n : ℕ) → 0 < fuel → n < 10 ^ fuel → n ≤ ulong_max → strtoul (decimal_digits fuel n []) ≡ n
unfolding digits_value
strtoul-decimal_digits fuel n h lt le =
    let value : digits_value (decimal_digits fuel n []) 0 ≡ n = digits_value-decimal fuel n [] lt in
    strtoul_digits (decimal_digits fuel n []) (decimal-StartsWithDigit fuel n h) (rw value le)
    ∙ value

-- Every 64-bit number that `%zu` prints is read back by `strtoul`.
pub strtoul-decimal : (n : ℕ) → n ≤ ulong_max → strtoul (decimal n) ≡ n
unfolding decimal
strtoul-decimal n h = strtoul-decimal_digits 20 n (omega arith) (omega arith) h
