-- ===== src/CString/Token.antt =====
-- What `strtok` and `c_string` promise.
use chat_app_in_c.Common.{
  ℕ, ◌≤◌, ◌≡◌, refl, Bool, true, false, some, [], ◌∷◌, ◌++◌, length, ◌==◌, arith,
}
use chat_app_in_c.CString.{Bytes, c_string, skip, word, rest, strtok}

-- Every byte of the text satisfies the test.
abbrev pub AllBytes : (ℕ → Bool) → Bytes → Type 0
AllBytes p [] = Unit
AllBytes p (c ∷ s) = (p c ≡ true) × AllBytes p s

-- No byte of the text satisfies the test.
abbrev pub Lacks : (ℕ → Bool) → Bytes → Type 0
Lacks p [] = Unit
Lacks p (c ∷ s) = (p c ≡ false) × Lacks p s

pub Lacks-c_string : (s : Bytes) → Lacks (λ c. c == 0) (c_string s)
unfolding c_string
Lacks-c_string [] = tt
Lacks-c_string (c ∷ s) = ground (arith, Lacks-c_string s)

pub length-c_string : (s : Bytes) → length (c_string s) ≤ length s
unfolding c_string
length-c_string [] = omega arith
length-c_string (c ∷ s) = ground (arith, length-c_string s)

module _ (delim : ℕ → Bool) where
  pub Lacks-word : (s : Bytes) → Lacks delim (word delim s)
  unfolding word
  Lacks-word [] = tt
  Lacks-word (c ∷ s) = ground (arith, Lacks-word s)

  pub length-word : (s : Bytes) → length (word delim s) ≤ length s
  unfolding word
  length-word [] = omega arith
  length-word (c ∷ s) = ground (arith, length-word s)

  pub length-rest : (s : Bytes) → length (rest delim s) ≤ length s
  unfolding rest
  length-rest [] = omega arith
  length-rest (c ∷ s) = ground (arith, length-rest s)

  pub length-skip : (s : Bytes) → length (skip delim s) ≤ length s
  unfolding skip
  length-skip [] = omega arith
  length-skip (c ∷ s) = ground (arith, length-skip s)

  word-append : (t s : Bytes) (d : ℕ) → Lacks delim t → delim d ≡ true → word delim (t ++ d ∷ s) ≡ t
  unfolding word
  word-append [] s d h e = rw e
  word-append (c ∷ t) s d h e = rw h.0 (ground (arith, word-append t s d h.1 e))

  rest-append : (t s : Bytes) (d : ℕ) → Lacks delim t → delim d ≡ true → rest delim (t ++ d ∷ s) ≡ s
  unfolding rest
  rest-append [] s d h e = rw e
  rest-append (c ∷ t) s d h e = rw h.0 (rest-append t s d h.1 e)

  word_self : (t : Bytes) → Lacks delim t → word delim t ≡ t
  unfolding word
  word_self [] h = refl
  word_self (c ∷ t) h = rw h.0 (ground (arith, word_self t h.1))

  rest_self : (t : Bytes) → Lacks delim t → rest delim t ≡ []
  unfolding rest
  rest_self [] h = refl
  rest_self (c ∷ t) h = rw h.0 (rest_self t h.1)

  -- A token that is followed by a delimiter is split off, and the text behind that delimiter is left.
  pub strtok-append :
      (c : ℕ) (t s : Bytes) (d : ℕ)
      → Lacks delim (c ∷ t)
      → delim d ≡ true
      → strtok delim (c ∷ (t ++ d ∷ s)) ≡ (some (c ∷ t), s)
  unfolding strtok
  strtok-append c t s d h e =
      rw h.0 (ground (arith, word-append t s d h.1 e, rest-append t s d h.1 e))

  pub strtok-last :
      (c : ℕ) (t : Bytes) → Lacks delim (c ∷ t) → strtok delim (c ∷ t) ≡ (some (c ∷ t), [])
  unfolding strtok
  strtok-last c t h = rw h.0 (ground (arith, word_self t h.1, rest_self t h.1))
