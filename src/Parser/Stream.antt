-- ===== src/Parser/Stream.antt =====
-- The body loop of src/hms/hms_parser.c depends on the stream alone, as long as no call of `read`
-- fails.
use hermes_c.CText.{Bytes}
use hermes_c.Parser.{BodyRead, complete, failed, out_of_fuel, body_loop}
use hermes_c.Prelude.{
  sizes, ℕ, zero, suc, ◌-◌, ◌<◌, ◌≤◌, ◌≡◌, ◌≢◌, ◌∙◌, refl, sym, ap, cons-ne-nil, [], ◌∷◌, ◌++◌,
  arith, length, take, drop, append_assoc, append-nil, take-append-drop, length-drop, leb→le,
  Bool-cases, inl, inr, leb,
}
use hermes_c.Socket.{Input, read, stream, NoErrors}
use hermes_c.Parser.Chunks.{Follows}

-- What one call takes, on input with no errors.
pub record Took (n : ℕ) (inp : Input) : Type 0 where
  pub got : Bytes
  pub rest : Input
  pub result : read n inp ≡ (got, rest)
  pub splits : stream inp ≡ got ++ stream rest
  pub fine : NoErrors rest
  pub within : length got ≤ n
  pub some_bytes : stream inp ≢ [] → 0 < length got

length_pos : (c : Bytes) → c ≢ [] → 0 < length c
length_pos [] h = absurd (h refl)
length_pos (b ∷ c) h = omega arith

drop-ne-nil : (n : ℕ) (c : Bytes) → n < length c → drop n c ≢ []
drop-ne-nil n c h e = omega (arith, ap length e, length-drop n c)

read-Took : (n : ℕ) (inp : Input) → 0 < n → NoErrors inp → Took n inp
unfolding read
read-Took n [] p e = record {
  got = [];
  rest = [];
  result = refl;
  splits = refl;
  fine = tt;
  within = omega arith;
  some_bytes = λ h. absurd (h refl);
}
read-Took n (c ∷ cs) p (ne, e) = elim (Bool-cases (leb (length c) n)) [
  | inl small ↦ record {
    got = c;
    rest = cs;
    result = rw small;
    splits = refl;
    fine = e;
    within = leb→le _ _ small;
    some_bytes = λ _. length_pos c ne;
  }
  | inr large ↦
      let more : n < length c = ground arith in
      record {
        got = take n c;
        rest = drop n c ∷ cs;
        result = rw large;
        splits = rw (← append_assoc (take n c) (drop n c) (stream cs)) (rw (take-append-drop n c));
        fine = (drop-ne-nil n c more, e);
        within = grind sizes;
        some_bytes = λ _. grind sizes;
      }
]

-- The body loop over the bytes takes `need` of them, and never runs out of fuel.
abbrev pub BodyLoop : BodyRead → ℕ → Bytes → Bytes → Type 0
BodyLoop (complete b rest) need got s = (b ≡ got ++ take need s) × Follows rest (drop need s)
BodyLoop (failed rest) need got s = length s < need
BodyLoop out_of_fuel need got s = ⊥

take_behind : (n : ℕ) (c t : Bytes) → length c ≤ n → take n (c ++ t) ≡ c ++ take (n - length c) t
take_behind n [] t h = ap (λ k. take k t) (omega arith)
take_behind zero (x ∷ c) t h = absurd (omega arith)
take_behind (suc n) (x ∷ c) t h =
    ap (◌∷◌ x) (take_behind n c t (omega arith) ∙ ap (λ k. c ++ take k t) (omega arith))

drop_behind : (n : ℕ) (c t : Bytes) → length c ≤ n → drop n (c ++ t) ≡ drop (n - length c) t
drop_behind n [] t h = ap (λ k. drop k t) (omega arith)
drop_behind zero (x ∷ c) t h = absurd (omega arith)
drop_behind (suc n) (x ∷ c) t h = drop_behind n c t (omega arith) ∙ ap (λ k. drop k t) (omega arith)

-- The promise of the loop behind one more chunk.
BodyLoop-behind :
    (r : BodyRead) (n : ℕ) (got c t : Bytes)
    → length c ≤ n
    → BodyLoop r (n - length c) (got ++ c) t
    → BodyLoop r n got (c ++ t)
BodyLoop-behind (complete b rest) n got c t h (e, f) = (
  e ∙ append_assoc got c _ ∙ ap (◌++◌ got) (sym (take_behind n c t h)),
  rw (drop_behind n c t h) f,
)
BodyLoop-behind (failed rest) n got c t h l = grind sizes
BodyLoop-behind out_of_fuel n got c t h l = absurd l

nothing_taken : (s : Bytes) (n : ℕ) → 0 < n → (s ≢ [] → 0 < 0) → length s < n
nothing_taken [] n p h = p
nothing_taken (x ∷ s) n p h = absurd (omega (arith, h (cons-ne-nil x s)))

module _ (fuel need : ℕ) (got : Bytes) (inp rest : Input) (more : 0 < need) where
  body_loop_round :
      (c : ℕ) (s : Bytes)
      → read need inp ≡ (c ∷ s, rest)
      → body_loop (suc fuel) need got inp
        ≡ body_loop fuel (need - length (c ∷ s)) (got ++ c ∷ s) rest
  unfolding body_loop
  body_loop_round c s e = rw e (ground arith)

  body_loop_stop : read need inp ≡ ([], rest) → body_loop (suc fuel) need got inp ≡ failed rest
  unfolding body_loop
  body_loop_stop e = rw e (ground arith)

body_loop_done :
    (fuel : ℕ) (got : Bytes) (inp : Input) → body_loop (suc fuel) 0 got inp ≡ complete got inp
unfolding body_loop
body_loop_done fuel got inp = refl

body_round :
    (fuel need : ℕ) (got : Bytes) (inp : Input) (c : Bytes) (rest : Input)
    → need < suc fuel
    → 0 < need
    → read need inp ≡ (c, rest)
    → stream inp ≡ c ++ stream rest
    → NoErrors rest
    → length c ≤ need
    → (stream inp ≢ [] → 0 < length c)
    → ((n : ℕ) (g : Bytes) (i : Input)
        → n < fuel
        → NoErrors i
        → BodyLoop (body_loop fuel n g i) n g (stream i))
    → BodyLoop (body_loop (suc fuel) need got inp) need got (stream inp)
body_round fuel need got inp [] rest l p e splits fine within bytes ih =
    rw (body_loop_stop fuel need got inp rest p e) (nothing_taken (stream inp) need p bytes)
body_round fuel need got inp (c ∷ s) rest l p e splits fine within bytes ih =
    rw (body_loop_round fuel need got inp rest p c s e) (
      rw splits (
        BodyLoop-behind _ need got (c ∷ s) (stream rest) within
          (ih (need - length (c ∷ s)) (got ++ c ∷ s) rest (omega arith) fine)))

-- On an input without an error, with more fuel than bytes that are missing, the body loop appends
-- the next `need` bytes of the stream to those it has and leaves the rest, or fails, which it does
-- only where fewer arrive; it does not run out of fuel.
pub body_loop-stream :
    (fuel need : ℕ) (got : Bytes) (inp : Input)
    → need < fuel
    → NoErrors inp
    → BodyLoop (body_loop fuel need got inp) need got (stream inp)
body_loop-stream zero need got inp l f = absurd (omega arith)
body_loop-stream (suc fuel) zero got inp l f =
    rw body_loop_done (sym (append-nil got), record { spells = refl; fine = f })
body_loop-stream (suc fuel) (suc need) got inp l f =
    let t = read-Took (suc need) inp (omega arith) f in
    body_round fuel (suc need) got inp t.got t.rest l (omega arith) t.result t.splits t.fine
      t.within t.some_bytes (body_loop-stream fuel)
