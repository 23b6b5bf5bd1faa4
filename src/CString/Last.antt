-- ===== src/CString/Last.antt =====
-- What `strrchr` finds.
use chat_app_in_c.Common.{
  ℕ, ◌≡◌, refl, ap, ◌∙◌, none, some, [], ◌∷◌, ◌++◌, ◌==◌, ==_refl, Option-cases, inl, inr, arith,
}
use chat_app_in_c.CString.{Bytes, strrchr}
use chat_app_in_c.CString.Token.{Lacks}

module _ (d : ℕ) where
  strrchr-none : (s : Bytes) → Lacks (λ c. c == d) s → strrchr d s ≡ none
  unfolding strrchr
  strrchr-none [] h = refl
  strrchr-none (c ∷ s) h = rw (strrchr-none s h.1, h.0) refl

  -- The text behind the last such byte does not hold another one.
  pub strrchr-append : (p s : Bytes) → Lacks (λ c. c == d) s → strrchr d (p ++ d ∷ s) ≡ some (d ∷ s)
  unfolding strrchr
  strrchr-append [] s h = rw (strrchr-none s h, ==_refl d) refl
  strrchr-append (c ∷ p) s h = rw (strrchr-append p s h) refl

  -- What is found is the end of the text.
  pub strrchr_suffix : (s t : Bytes) → strrchr d s ≡ some t → (p : Bytes) × (s ≡ p ++ t)
  unfolding strrchr
  strrchr_suffix [] t e = absurd (ground (arith, e))
  strrchr_suffix (c ∷ s) t e = elim (Option-cases (strrchr d s)) [
    | inr (u, f) ↦
        let (p, g) = strrchr_suffix s u f in
        let same : u ≡ t = ground (arith, e, f) in (c ∷ p, ap (◌∷◌ c) (g ∙ ap (◌++◌ p) same))
    | inl f ↦ let same : c ∷ s ≡ t = ground (arith, e, f) in ([], same)
  ]
