-- ===== src/Prelude/Cuts.antt =====
-- Parts of lists that are cut and put together.
use Prim.Native.Nat.{ℕ, zero, suc, ◌+◌, ◌≤◌}
use mathlib.Core.Path.{◌≡◌, ◌∙◌, sym, refl, ap}
use mathlib.Core.List.{List, [], ◌∷◌, ◌++◌}
use native.Mathlib.Omega.{arith}
use hermes_c.Prelude.Lists.{drop, length, take}

suc-add : (k n : ℕ) → suc k + n ≡ suc (k + n)
suc-add k n = omega arith

module _ {ℓ} {A : Type ℓ} where
  abbrev the_empty : List A
  the_empty = []

  drop-nil : (n : ℕ) → drop n (the_empty) ≡ []
  drop-nil zero = refl
  drop-nil (suc n) = refl

  take-nil : (n : ℕ) → take n (the_empty) ≡ []
  take-nil zero = refl
  take-nil (suc n) = refl

  pub take-add : (k n : ℕ) (xs : List A) → take (k + n) xs ≡ take k xs ++ take n (drop k xs)
  take-add zero n xs = ap (λ i. take i xs) (omega arith)
  take-add (suc k) n [] = take-nil (suc k + n) ∙ sym (take-nil n)
  take-add (suc k) n (x ∷ xs) =
      ap (λ i. take i (x ∷ xs)) (suc-add k n) ∙ ap (λ t. x ∷ t) (take-add k n xs)

  pub take-front : (k : ℕ) (xs ys : List A) → k ≤ length xs → take k (take k xs ++ ys) ≡ take k xs
  take-front zero xs ys l = refl
  take-front (suc k) [] ys l = absurd (omega arith)
  take-front (suc k) (x ∷ xs) ys l = ap (λ t. x ∷ t) (take-front k xs ys (omega arith))

  pub drop-front :
      (k n : ℕ) (xs ys : List A)
      → k ≤ length xs
      → drop (k + n) (take k xs ++ drop k ys) ≡ drop (k + n) ys
  drop-front zero n xs ys l = refl
  drop-front (suc k) n [] ys l = absurd (omega arith)
  drop-front (suc k) n (x ∷ xs) [] l =
      ap (λ i. drop i (x ∷ (take k xs ++ []))) (suc-add k n)
      ∙ ap (λ t. drop (k + n) (take k xs ++ t)) (sym (drop-nil k))
      ∙ drop-front k n xs [] (omega arith)
      ∙ drop-nil (k + n)
      ∙ sym (drop-nil (suc k + n))
  drop-front (suc k) n (x ∷ xs) (y ∷ ys) l =
      ap (λ i. drop i (x ∷ (take k xs ++ drop k ys))) (suc-add k n)
      ∙ drop-front k n xs ys (omega arith)
      ∙ ap (λ i. drop i (y ∷ ys)) (sym (suc-add k n))
