-- ===== src/CText/Case.antt =====
-- Equality of texts up to the case of their letters is an equivalence.
use hermes_c.Prelude.{◌≡◌, refl, true, [], ◌∷◌, arith}
use hermes_c.CText.{Bytes, same_nocase}

pub same_nocase_refl : (s : Bytes) → same_nocase s s ≡ true
unfolding same_nocase
same_nocase_refl [] = refl
same_nocase_refl (a ∷ s) = ground (arith, same_nocase_refl s)

pub same_nocase_sym : (s t : Bytes) → same_nocase s t ≡ same_nocase t s
unfolding same_nocase
same_nocase_sym [] [] = refl
same_nocase_sym [] (b ∷ t) = refl
same_nocase_sym (a ∷ s) [] = refl
same_nocase_sym (a ∷ s) (b ∷ t) = ground (arith, same_nocase_sym s t)

-- Equal texts stand to a third one alike.
pub same_nocase_left : (s t u : Bytes) → same_nocase s t ≡ true → same_nocase s u ≡ same_nocase t u
unfolding same_nocase
same_nocase_left [] [] u h = refl
same_nocase_left [] (b ∷ t) u h = ground arith
same_nocase_left (a ∷ s) [] u h = ground arith
same_nocase_left (a ∷ s) (b ∷ t) [] h = refl
same_nocase_left (a ∷ s) (b ∷ t) (c ∷ u) h = ground (arith, same_nocase_left s t u)
