-- ===== src/Parser/Consumes.antt =====
-- How much of its input the parser of src/hms/hms_parser.c takes.
use hermes_c.CText.{Bytes}
use hermes_c.Msg.Body.{set_body}
use hermes_c.Msg.{Msg, create, destroy}
use hermes_c.Parser.Outcome.{read_header_lem}
use hermes_c.Parser.{
  parse_within, HdrState, hdr_step, after_step, after_read, hdr_loop, hdr_start, cut_at_dot,
  parse_header, BodyRead, complete, failed, out_of_fuel, after_body_read, body_loop, store_body,
  read_body, after_header, finish, parse_message, succeeded, parse,
}
use hermes_c.Prelude.{
  ltb, int_min_abs, Bool-cases, ◌+◌, ◌<◌, sizes, ℕ, zero, suc, ◌-◌, ◌≤◌, ◌≡◌, refl, Bool, true,
  false, not, ◌&&◌, Option, none, some, [], ◌∷◌, ◌++◌, arith, length, drop, if◌then◌else◌, ℤ, pos,
  negsuc, eq_ℤ, ltb_ℤ, length-append, length-drop, length-take, inl, inr, suc-ne-zero,
}
use hermes_c.Process.{Run, ok, died, fault, rc_ok, rc_err, ◌>>=◌}
use hermes_c.Socket.{Input, read, stream}

-- The bytes that are not read yet.
abbrev pub remaining : Input → ℕ
remaining inp = length (stream inp)

read-remaining :
    (n : ℕ) (inp : Input) → length (read n inp).0 + remaining (read n inp).1 ≡ remaining inp
unfolding read
read-remaining n [] = refl
read-remaining n (c ∷ cs) = ground (
  arith,
  length-append c (stream cs),
  length-append (drop n c) (stream cs),
  length-drop n c,
  length-take n c,
)

hdr_step-length : (st : HdrState) (c : ℕ) → length (hdr_step st c).0.buffer ≡ length st.buffer + 1
unfolding hdr_step
hdr_step-length st c = grind sizes

-- What is read is stored.
abbrev Stores : Bool × HdrState × Input → ℕ → Type 0
Stores (done, st, rest) n = length st.buffer + remaining rest ≤ n

after_step-Stores :
    (next : HdrState → Input → Bool × HdrState × Input) (q : HdrState × Bool) (inp : Input) (n : ℕ)
    → length q.0.buffer + remaining inp ≤ n
    → ((r : HdrState) (i : Input) → Stores (next r i) (length r.buffer + remaining i))
    → Stores (after_step next q inp) n
unfolding after_step
after_step-Stores next (st, true) inp n l h = l
after_step-Stores next (st, false) inp n l h = omega (arith, h st inp)

after_read-Stores :
    (next : HdrState → Input → Bool × HdrState × Input) (st : HdrState) (r : Bytes × Input) (n : ℕ)
    → length st.buffer + (length r.0 + remaining r.1) ≤ n
    → ((r : HdrState) (i : Input) → Stores (next r i) (length r.buffer + remaining i))
    → Stores (after_read next st r) n
unfolding after_read
after_read-Stores next st ([], inp) n l h = omega arith
after_read-Stores next st (b ∷ bs, inp) n l h =
    after_step-Stores next (hdr_step st b) inp n (omega (arith, hdr_step-length st b)) h

hdr_loop-Stores :
    (room : ℕ) (st : HdrState) (inp : Input)
    → Stores (hdr_loop room st inp) (length st.buffer + remaining inp)
unfolding hdr_loop
hdr_loop-Stores zero st inp = omega arith
hdr_loop-Stores (suc room) st inp =
    after_read-Stores (hdr_loop room) st (read 1 inp) _ (omega (arith, read-remaining 1 inp))
      (hdr_loop-Stores room)

abbrev BodyLeaves : BodyRead → ℕ → Type 0
BodyLeaves (complete b rest) n = remaining rest ≤ n
BodyLeaves (failed rest) n = remaining rest ≤ n
BodyLeaves out_of_fuel n = Unit {0}

BodyLeaves-le : (r : BodyRead) (k n : ℕ) → k ≤ n → BodyLeaves r k → BodyLeaves r n
BodyLeaves-le (complete b rest) k n l h = omega arith
BodyLeaves-le (failed rest) k n l h = omega arith
BodyLeaves-le out_of_fuel k n l h = tt

after_body_read-BodyLeaves :
    (next : ℕ → Bytes → Input → BodyRead) (need : ℕ) (got : Bytes) (r : Bytes × Input) (n : ℕ)
    → remaining r.1 ≤ n
    → ((k : ℕ) (g : Bytes) (i : Input) → BodyLeaves (next k g i) (remaining i))
    → BodyLeaves (after_body_read next need got r) n
unfolding after_body_read
after_body_read-BodyLeaves next need got ([], inp) n l h = l
after_body_read-BodyLeaves next need got (c ∷ s, inp) n l h =
    BodyLeaves-le _ (remaining inp) n l (h (need - length (c ∷ s)) (got ++ c ∷ s) inp)

body_loop-BodyLeaves :
    (fuel need : ℕ) (got : Bytes) (inp : Input)
    → BodyLeaves (body_loop fuel need got inp) (remaining inp)
unfolding body_loop
body_loop-BodyLeaves zero need got inp = tt
body_loop-BodyLeaves (suc fuel) zero got inp = omega arith
body_loop-BodyLeaves (suc fuel) (suc need) got inp = rw (suc-ne-zero need) (
    after_body_read-BodyLeaves (body_loop fuel) (suc need) got (read (suc need) inp) (remaining inp)
      (omega (arith, read-remaining (suc need) inp)) (body_loop-BodyLeaves fuel))

abbrev after_body : ℤ × Msg × Input → Input
after_body (rc, msg, rest) = rest

abbrev after_msg : Option Msg × Input → Input
after_msg (msg, rest) = rest

abbrev Leaves {ℓ} : {A : Type ℓ} → (A → Input) → Run A → ℕ → Type 0
Leaves f (ok a) n = remaining (f a) ≤ n
Leaves f died n = Unit {0}
Leaves f fault n = Unit {0}

store_body-Leaves :
    (m : Msg) (n k : ℕ) (r : BodyRead) → BodyLeaves r k → Leaves after_body (store_body m n r) k
unfolding store_body
store_body-Leaves m n k (complete b rest) h = set (set_body m b (pos n))
  where
    set : (s : Run Msg) → Leaves after_body (s >>= λ q. ok (rc_ok, q, rest)) k
    set (ok q) = h
    set died = tt
    set fault = tt
store_body-Leaves m n k (failed rest) h = h
store_body-Leaves m n k out_of_fuel h = tt

read_body-Leaves :
    (inp : Input) (m : Msg) (n : ℤ) → Leaves after_body (read_body inp m n) (remaining inp)
unfolding read_body
read_body-Leaves inp m (pos n) = elim (Bool-cases (ltb (n + 1) int_min_abs)) [
  | inl fits ↦
      rw fits (store_body-Leaves m n (remaining inp) _ (body_loop-BodyLeaves (suc n) n [] inp))
  | inr overflow ↦ rw overflow (omega arith)
]
read_body-Leaves inp m (negsuc zero) = tt
read_body-Leaves inp m (negsuc (suc n)) = omega arith

finish-Leaves :
    (rc : ℤ) (m : Msg) (rest : Input) (n : ℕ)
    → remaining rest ≤ n
    → Leaves after_msg (finish rc m rest) n
finish-Leaves rc m rest n l = ended (succeeded rc) (destroy m)
  where
    ended :
        (b : Bool) (d : Run ℤ)
        → Leaves after_msg (if b then ok (some m, rest) else d >>= λ _. ok (none, rest)) n
    ended true d = l
    ended false (ok _) = l
    ended false died = tt
    ended false fault = tt

after_header-Leaves :
    (r : ℤ × Msg × ℤ) (inp : Input) → Leaves after_msg (after_header r inp) (remaining inp)
after_header-Leaves (rc, m, n) inp = elim (Bool-cases (succeeded rc && not (eq_ℤ n (pos 0)))) [
  | inl body ↦ rw body (stored (read_body inp m n) (read_body-Leaves inp m n))
  | inr bare ↦ rw bare (finish-Leaves rc m inp (remaining inp) (omega arith))
]
  where
    stored :
        (r : Run (ℤ × Msg × Input))
        → Leaves after_body r (remaining inp)
        → Leaves after_msg (r >>= λ (rc, m, rest). finish rc m rest) (remaining inp)
    stored (ok (rc, m, rest)) l = finish-Leaves rc m rest (remaining inp) l
    stored died l = tt
    stored fault l = tt

-- A message takes at least three bytes of the input, and no call adds to it.
abbrev pub Consumes : Run (Option Msg × Input) → ℕ → Type 0
Consumes (ok (some m, rest)) n = remaining rest + 3 ≤ n
Consumes (ok (none, rest)) n = remaining rest ≤ n
Consumes died n = Unit {0}
Consumes fault n = Unit {0}

Leaves-Consumes :
    (r : Run (Option Msg × Input)) (k n : ℕ) → k + 3 ≤ n → Leaves after_msg r k → Consumes r n
Leaves-Consumes (ok (some m, rest)) k n l h = omega arith
Leaves-Consumes (ok (none, rest)) k n l h = omega arith
Leaves-Consumes died k n l h = tt
Leaves-Consumes fault k n l h = tt

from_start :
    (r : Bool × HdrState × Input) (n : ℕ) → Stores r (length hdr_start.buffer + n) → Stores r n
from_start (done, st, rest) n l = omega arith

-- The test `hdr_len > 2` behind the header.
header_tested :
    (r : Bool × HdrState × Input) (n : ℕ)
    → Stores r n
    → Consumes
        (if ltb_ℤ (pos 2) (if r.0 then pos (length r.1.buffer) else rc_err)
          then parse_message (cut_at_dot r.1) r.2
          else ok (none, r.2))
        n
unfolding parse_message
header_tested (false, st, rest) n l = omega arith
header_tested (true, st, rest) n l = elim (Bool-cases (ltb 2 (length st.buffer))) [
  | inl long ↦ rw long (
      Leaves-Consumes (parse_message (cut_at_dot st) rest) (remaining rest) n (ground arith)
        (after_header-Leaves (parse_header create (cut_at_dot st)) rest))
  | inr short ↦ rw short (omega arith)
]

within : (inp : Input) (max : ℕ) → 0 < max → Consumes (parse_within inp max) (remaining inp)
unfolding parse_within
within inp max p = rw (read_header_lem inp max p) (
    header_tested (hdr_loop max hdr_start inp) (remaining inp)
      (from_start (hdr_loop max hdr_start inp) (remaining inp) (hdr_loop-Stores max hdr_start inp)))

-- With room for a byte, a call of the parser that returns a message has taken at least three bytes
-- of the input, and one that returns NULL has added none.
pub parse-Consumes : (inp : Input) (max : ℕ) → 0 < max → Consumes (parse inp max) (remaining inp)
unfolding parse
parse-Consumes inp max p = elim (Bool-cases (ltb (max + 1) int_min_abs)) [
  | inl small ↦ rw small (within inp max p)
  | inr large ↦ rw large tt
]
