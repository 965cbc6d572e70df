-- ===== src/Parser/Outcome.antt =====
-- What `hms_msg_parse` of src/hms/hms_parser.c returns on every input: a complete message or NULL,
-- unless a Content-Length of -1 ends the process.
use Prim.Native.Nat.add
use hermes_c.CText.{Bytes}
use hermes_c.Msg.Body.Laws.{set_body-filled, filled, filled-IsValid, filled-content}
use hermes_c.Msg.Valid.{IsValid, destroy-IsValid, content_len_zero}
use hermes_c.Msg.{Msg, content_length, create, find_named}
use hermes_c.Parser.Safe.{AwaitsBody, Parsed, parse_header-Parsed}
use hermes_c.Parser.{
  parse_within, hdr_loop, hdr_start, cut_at_dot, HdrState, parse_header, BodyRead, complete, failed,
  out_of_fuel, after_body_read, body_loop, store_body, read_body, after_header, finish,
  parse_message, read_header, parse,
}
use hermes_c.Prelude.{
  lt→ltb, sizes, ℕ, zero, suc, ◌+◌, ◌-◌, ◌<◌, ◌≤◌, ◌≡◌, ◌≢◌, ◌∙◌, refl, sym, ap, Bool, false, not,
  ◌&&◌, Option, none, some, [], ◌∷◌, ◌++◌, arith, length, take, ltb, leb, if◌then◌else◌, ℤ, pos,
  negsuc, eq_ℤ, ltb_ℤ, eq_ℤ→eq, int_min_abs, length-take, Bool-cases, inl, inr, leb→le, suc-ne-zero,
  and-true, and-false, true≢false,
}
use hermes_c.Process.{Run, ok, died, fault, rc_ok, rc_err, ◌>>=◌}
use hermes_c.Socket.{Input, read}

-- A valid message that has a Content-Length exactly if it has a body.
pub record IsComplete (m : Msg) : Type 0 where
  pub valid : IsValid m
  pub no_length : m.content ≡ none → find_named content_length m.named_headers ≡ none

read_within : (n : ℕ) (inp : Input) → length (read n inp).0 ≤ n
unfolding read
read_within n [] = omega arith
read_within n (c ∷ cs) = elim (Bool-cases (leb (length c) n)) [
  | inl small ↦ rw small (leb→le _ _ small)
  | inr large ↦ rw large (grind sizes)
]

-- The loop fills the buffer or fails; it never runs out of fuel.
abbrev pub Fills : BodyRead → ℕ → Type 0
Fills (complete b rest) n = length b ≡ n
Fills (failed rest) n = Unit
Fills out_of_fuel n = ⊥

after_body_read-Fills :
    (next : ℕ → Bytes → Input → BodyRead) (fuel need : ℕ) (got : Bytes) (r : Bytes × Input)
    → need < suc fuel
    → length r.0 ≤ need
    → ((n : ℕ) (g : Bytes) (i : Input) → n < fuel → Fills (next n g i) (length g + n))
    → Fills (after_body_read next need got r) (length got + need)
unfolding after_body_read
after_body_read-Fills next fuel need got ([], inp) l w ih = tt
after_body_read-Fills next fuel need got (c ∷ s, inp) l w ih =
    let total : length (got ++ c ∷ s) + (need - length (c ∷ s)) ≡ length got + need = grind sizes in
    rw total at (ih (need - length (c ∷ s)) (got ++ c ∷ s) inp (omega arith))

pub body_loop-Fills :
    (fuel need : ℕ) (got : Bytes) (inp : Input)
    → need < fuel
    → Fills (body_loop fuel need got inp) (length got + need)
unfolding body_loop
body_loop-Fills zero need got inp l = absurd (omega arith)
body_loop-Fills (suc fuel) zero got inp l = omega arith
body_loop-Fills (suc fuel) (suc need) got inp l = rw (suc-ne-zero need) (
    after_body_read-Fills _ fuel (suc need) got (read (suc need) inp) l (read_within (suc need) inp)
      (body_loop-Fills fuel))

-- What `__hms_parse_read_body` leaves, for a body length `n`.
abbrev BodyOutcome : Run (ℤ × Msg × Input) → ℤ → Type 0
BodyOutcome (ok (rc, m, rest)) n = IsValid m × (rc ≡ rc_ok → IsComplete m)
BodyOutcome died n = n ≡ negsuc 0
BodyOutcome fault n = ⊥

filled-IsComplete :
    (m : Msg) (b : Bytes)
    → IsValid m
    → 0 < length b
    → length b < int_min_abs
    → IsComplete (filled m b)
filled-IsComplete m b i p l = record {
  valid = filled-IsValid m b i p l;
  no_length = λ e. absurd (no_some (sym (filled-content m b) ∙ e));
}
  where
    no_some : {c : Bytes} → some c ≡ none → ⊥
    no_some e = cc

store_body-BodyOutcome :
    (m : Msg) (n : ℕ) (r : BodyRead)
    → AwaitsBody m (pos n)
    → 0 < n
    → Fills r n
    → BodyOutcome (store_body m n r) (pos n)
unfolding store_body
store_body-BodyOutcome m n (complete b rest) a p e =
    let done =
      filled-IsComplete m (take n b) a.valid (grind sizes)
        (omega (arith, length-take n b, a.is_int)) in
    rw (set_body-filled m b n a.no_content (content_len_zero a.valid a.no_content) p (omega arith))
      (done.valid, λ _. done)
store_body-BodyOutcome m n (failed rest) a p e = (a.valid, λ h. cc)
store_body-BodyOutcome m n out_of_fuel a p e = absurd e

read_body-BodyOutcome :
    (inp : Input) (m : Msg) (n : ℤ) → AwaitsBody m n → n ≢ pos 0 → BodyOutcome (read_body inp m n) n
unfolding read_body
read_body-BodyOutcome inp m (pos zero) a ne = absurd (ne refl)
read_body-BodyOutcome inp m (pos (suc n)) a ne = elim (Bool-cases (ltb (suc n + 1) int_min_abs)) [
  | inl fits ↦ rw fits (
      store_body-BodyOutcome m (suc n) (body_loop (suc (suc n)) (suc n) [] inp) a (omega arith)
        (rw add.zero at (body_loop-Fills (suc (suc n)) (suc n) [] inp (omega arith))))
  | inr overflow ↦ rw overflow (a.valid, λ h. cc)
]
read_body-BodyOutcome inp m (negsuc zero) a ne = refl
read_body-BodyOutcome inp m (negsuc (suc n)) a ne = (a.valid, λ h. cc)

-- What `hms_msg_parse` does: NULL, a complete message, or the end of the process where the length
-- is -1.
abbrev pub Outcome : Run (Option Msg × Input) → ℤ → Type 0
Outcome (ok (none, rest)) n = Unit
Outcome (ok (some m, rest)) n = IsComplete m
Outcome died n = n ≡ negsuc 0
Outcome fault n = ⊥

finish-Outcome :
    (rc : ℤ) (m : Msg) (rest : Input) (n : ℤ)
    → IsValid m
    → (rc ≡ rc_ok → IsComplete m)
    → Outcome (finish rc m rest) n
finish-Outcome rc m rest n valid whole = elim (Bool-cases (eq_ℤ rc rc_ok)) [
  | inl success ↦ rw success (whole (eq_ℤ→eq rc rc_ok success))
  | inr failure ↦ rw failure (rw (destroy-IsValid m valid) tt)
]

body_and_finish-Outcome :
    (r : Run (ℤ × Msg × Input)) (n : ℤ)
    → BodyOutcome r n
    → Outcome (r >>= λ (rc, m, rest). finish rc m rest) n
body_and_finish-Outcome (ok (rc, m, rest)) n (valid, whole) = finish-Outcome rc m rest n valid whole
body_and_finish-Outcome died n e = e
body_and_finish-Outcome fault n e = e

ne_zero : (n : ℤ) → eq_ℤ n (pos 0) ≡ false → n ≢ pos 0
ne_zero n h e = true≢false (sym (ap (λ x. eq_ℤ x (pos 0)) e) ∙ h)

after_header-Outcome : (r : ℤ × Msg × ℤ) (inp : Input) → Parsed r → Outcome (after_header r inp) r.2
after_header-Outcome (rc, m, n) inp (valid, awaits) =
    elim (Bool-cases (eq_ℤ rc rc_ok && not (eq_ℤ n (pos 0)))) [
      | inl body ↦
          let (success, some_length) = and-true (eq_ℤ rc rc_ok) (eq_ℤ n (pos 0)) body in
          rw body (
            body_and_finish-Outcome (read_body inp m n) n (
              read_body-BodyOutcome inp m n (awaits (eq_ℤ→eq rc rc_ok success))
                (ne_zero n some_length)))
      | inr bare ↦ rw bare (
          finish-Outcome rc m inp n valid (λ e.
            let zero_length =
              and-false (eq_ℤ rc rc_ok) (eq_ℤ n (pos 0)) bare (ap (λ x. eq_ℤ x rc_ok) e) in
            record {
              valid = valid;
              no_length = λ _. (awaits e).no_length (eq_ℤ→eq n (pos 0) zero_length);
            }))
    ]

pub parse_message-Outcome :
    (buffer : Bytes) (inp : Input)
    → Outcome (parse_message buffer inp) (parse_header create buffer).2
unfolding parse_message
parse_message-Outcome buffer inp =
    after_header-Outcome (parse_header create buffer) inp (parse_header-Parsed buffer)

abbrev header_len : Bool × HdrState × Input → ℤ
header_len (done, st, rest) = if done then pos (length st.buffer) else rc_err

-- With room for a byte the assertion of `__hms_parse_read_header` holds.
pub read_header_lem :
    (inp : Input) (max : ℕ)
    → 0 < max
    → read_header inp max ≡ (
        let (done, st, rest) = hdr_loop max hdr_start inp in
        ok (if done then pos (length st.buffer) else rc_err, cut_at_dot st, rest))
unfolding read_header
read_header_lem inp zero p = absurd (omega arith)
read_header_lem inp (suc max) p = rw (suc-ne-zero max)

-- The guard on the size of the buffer passes.
pub parse-parse_within :
    (inp : Input) (max : ℕ) → max + 1 < int_min_abs → parse inp max ≡ parse_within inp max
unfolding parse
parse-parse_within inp max l = rw (lt→ltb (max + 1) int_min_abs l) refl

pub parse-Outcome :
    (inp : Input) (max_hdr_len : ℕ)
    → 0 < max_hdr_len
    → max_hdr_len + 1 < int_min_abs
    → Outcome
        (parse inp max_hdr_len)
        (parse_header create (cut_at_dot (hdr_loop max_hdr_len hdr_start inp).1)).2
unfolding parse_within
parse-Outcome inp max p small = rw (parse-parse_within inp max small) (
    rw (read_header_lem inp max p)
      (elim (Bool-cases (ltb_ℤ (pos 2) (header_len (hdr_loop max hdr_start inp)))) [
        | inl long ↦ rw long (parse_message-Outcome _ _)
        | inr short ↦ rw short tt
      ]))
