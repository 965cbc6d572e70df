-- ===== src/CText/Token.antt =====
-- The tokens of a text that is made of words with a separator behind each.
use hermes_c.CText.{Bytes, in_set, tokens, tokens_from}
use hermes_c.Prelude.{
  ℕ, ◌≡◌, ◌≢◌, ◌∙◌, refl, sym, ap, true, false, [], ◌∷◌, ◌++◌, arith, All, append_assoc, append-nil,
}

-- No byte is a separator.
abbrev pub Free : Bytes → Bytes → Type 0
Free seps = All (λ c. in_set seps c ≡ false)

module _ (seps : Bytes) where
  first_byte :
      (c : ℕ) (s : Bytes)
      → in_set seps c ≡ false
      → tokens_from seps [] (c ∷ s) ≡ tokens_from seps (c ∷ []) s
  unfolding tokens_from
  first_byte c s h = rw (h, tokens_from)

  next_byte :
      (d : Bytes) (x c : ℕ) (s : Bytes)
      → in_set seps c ≡ false
      → tokens_from seps (x ∷ d) (c ∷ s) ≡ tokens_from seps (x ∷ (d ++ c ∷ [])) s
  unfolding tokens_from
  next_byte d x c s h = ground arith

  separator :
      (d : Bytes) (x c : ℕ) (s : Bytes)
      → in_set seps c ≡ true
      → tokens_from seps (x ∷ d) (c ∷ s) ≡ (x ∷ d) ∷ tokens_from seps [] s
  unfolding tokens_from
  separator d x c s h = ground arith

  tokens_from-Free :
      (d : Bytes) (x : ℕ) (w s : Bytes)
      → Free seps w
      → tokens_from seps (x ∷ d) (w ++ s) ≡ tokens_from seps (x ∷ (d ++ w)) s
  tokens_from-Free d x [] s h = rw append-nil
  tokens_from-Free d x (c ∷ w) s (hc, hw) =
      next_byte d x c (w ++ s) hc
      ∙ tokens_from-Free (d ++ c ∷ []) x w s hw
      ∙ ap (λ t. tokens_from seps (x ∷ t) s) (append_assoc d (c ∷ []) w)

  -- A word with a separator behind it is the first token.
  pub tokens-separated :
      (w : Bytes) (c : ℕ) (s : Bytes)
      → w ≢ []
      → Free seps w
      → in_set seps c ≡ true
      → tokens seps (w ++ c ∷ s) ≡ w ∷ tokens seps s
  unfolding tokens
  tokens-separated [] c s ne h sep = absurd (ne refl)
  tokens-separated (x ∷ w) c s ne (hx, hw) sep =
      first_byte x (w ++ c ∷ s) hx ∙ tokens_from-Free [] x w (c ∷ s) hw ∙ separator w x c s sep

  pub tokens_last : (w : Bytes) → w ≢ [] → Free seps w → tokens seps w ≡ w ∷ []
  unfolding tokens
  tokens_last [] ne h = absurd (ne refl)
  tokens_last (x ∷ w) ne (hx, hw) =
      first_byte x w hx
      ∙ ap (tokens_from seps (x ∷ [])) (sym (append-nil w))
      ∙ tokens_from-Free [] x w [] hw
      ∙ unfold tokens_from in refl
