-- ===== src/Parser/Same.antt =====
-- `hms_msg_parse` of src/hms/hms_parser.c depends on the bytes that arrive alone.
use Prim.Native.Nat.add
use hermes_c.CText.{Bytes}
use hermes_c.Msg.Body.{set_body}
use hermes_c.Msg.{Msg, create, destroy}
use hermes_c.Parser.Chunks.{Follows, HeaderLoops, flat_loop, hdr_loop-flat_loop}
use hermes_c.Parser.Outcome.{Fills, body_loop-Fills, read_header_lem}
use hermes_c.Parser.Stream.{BodyLoop, body_loop-stream}
use hermes_c.Parser.{
  parse_within, BodyRead, HdrState, after_header, body_loop, complete, cut_at_dot, failed, finish,
  hdr_loop, hdr_start, out_of_fuel, parse, parse_header, parse_message, read_body, store_body,
  succeeded,
}
use hermes_c.Prelude.{
  ltb, int_min_abs, Bool-cases, ◌+◌, ◌<◌, ℕ, zero, suc, ◌≡◌, ◌∙◌, refl, sym, ap, subst, eq_ℤ→eq,
  Bool, not, ◌&&◌, Option, none, some, [], arith, inl, inr, if◌then◌else◌, length, length-take,
  drop, ltb_ℤ, eq_ℤ, ℤ, pos, negsuc,
}
use hermes_c.Process.{Run, ok, died, fault, rc_ok, rc_err, ◌>>=◌}
use hermes_c.Socket.{Input, NoErrors, stream}

-- Two inputs of the same bytes, without an error.
abbrev pub SameBytes : Input → Input → Type 0
SameBytes a b = (s : Bytes) × Follows a s × Follows b s

-- The same message and the same bytes left, or the same failure.
abbrev pub SameResult : Run (Option Msg × Input) → Run (Option Msg × Input) → Type 0
SameResult (ok (some m, a)) (ok (some k, b)) = (m ≡ k) × SameBytes a b
SameResult (ok (none, a)) (ok (none, b)) = Unit {0}
SameResult died died = Unit {0}
SameResult fault fault = Unit {0}
SameResult _ _ = ⊥

abbrev SameBody : BodyRead → BodyRead → Type 0
SameBody (complete g a) (complete h b) = (g ≡ h) × SameBytes a b
SameBody (failed a) (failed b) = Unit {0}
SameBody _ _ = ⊥

loops-SameBody :
    (q r : BodyRead) (n : ℕ) (s : Bytes)
    → BodyLoop q n [] s
    → BodyLoop r n [] s
    → Fills q n
    → Fills r n
    → SameBody q r
loops-SameBody (complete g a) (complete h b) n s (e, f) (d, k) x y = (e ∙ sym d, (drop n s, f, k))
loops-SameBody (complete g a) (failed b) n s (e, f) l x y =
    absurd (omega (arith, length-take n s, ap length e))
loops-SameBody (failed a) (complete h b) n s l (e, f) x y =
    absurd (omega (arith, length-take n s, ap length e))
loops-SameBody (failed a) (failed b) n s l k x y = tt
loops-SameBody out_of_fuel r n s l k x y = absurd l
loops-SameBody (complete g a) out_of_fuel n s l k x y = absurd k
loops-SameBody (failed a) out_of_fuel n s l k x y = absurd k

-- The same end of `__hms_parse_read_body`.
abbrev SameStored : Run (ℤ × Msg × Input) → Run (ℤ × Msg × Input) → Type 0
SameStored (ok (rc, m, a)) (ok (rd, k, b)) = (rc ≡ rd) × (m ≡ k) × (rc ≡ rc_ok → SameBytes a b)
SameStored died died = Unit {0}
SameStored fault fault = Unit {0}
SameStored _ _ = ⊥

store_body-SameStored :
    (m : Msg) (n : ℕ) (q r : BodyRead)
    → SameBody q r
    → SameStored (store_body m n q) (store_body m n r)
unfolding store_body
store_body-SameStored m n (complete g a) (complete h b) (e, f) =
    rw e (stored (set_body m h (pos n)))
  where
    stored : (t : Run Msg) → SameStored (t >>= λ k. ok (rc_ok, k, a)) (t >>= λ k. ok (rc_ok, k, b))
    stored (ok k) = (refl, refl, λ _. f)
    stored died = tt
    stored fault = tt
store_body-SameStored m n (failed a) (failed b) e = (refl, refl, λ x. absurd cc)
store_body-SameStored m n (complete g a) (failed b) e = absurd e
store_body-SameStored m n (complete g a) out_of_fuel e = absurd e
store_body-SameStored m n (failed a) (complete h b) e = absurd e
store_body-SameStored m n (failed a) out_of_fuel e = absurd e
store_body-SameStored m n out_of_fuel r e = absurd e

read_body-SameStored :
    (m : Msg) (n : ℤ) (a b : Input) → SameBytes a b → SameStored (read_body a m n) (read_body b m n)
unfolding read_body
read_body-SameStored m (pos n) a b (s, f, g) = elim (Bool-cases (ltb (n + 1) int_min_abs)) [
  | inl fits ↦ rw fits (
      store_body-SameStored m n _ _ (
        loops-SameBody (body_loop (suc n) n [] a) (body_loop (suc n) n [] b) n s
          (rw f.spells at (body_loop-stream (suc n) n [] a (omega arith) f.fine))
          (rw g.spells at (body_loop-stream (suc n) n [] b (omega arith) g.fine))
          (rw add.zero at (body_loop-Fills (suc n) n [] a (omega arith)))
          (rw add.zero at (body_loop-Fills (suc n) n [] b (omega arith)))))
  | inr overflow ↦ rw overflow (refl, refl, λ x. absurd cc)
]
read_body-SameStored m (negsuc zero) a b f = tt
read_body-SameStored m (negsuc (suc n)) a b f = (refl, refl, λ x. absurd cc)

finish-SameResult :
    (rc : ℤ) (m : Msg) (a b : Input)
    → (rc ≡ rc_ok → SameBytes a b)
    → SameResult (finish rc m a) (finish rc m b)
finish-SameResult rc m a b h = elim (Bool-cases (eq_ℤ rc rc_ok)) [
  | inl success ↦ rw success (refl, h (eq_ℤ→eq rc rc_ok success))
  | inr failure ↦ rw failure (dropped (destroy m))
]
  where
    dropped : (d : Run ℤ) → SameResult (d >>= λ _. ok (none, a)) (d >>= λ _. ok (none, b))
    dropped (ok _) = tt
    dropped died = tt
    dropped fault = tt

body_and_finish-SameResult :
    (q r : Run (ℤ × Msg × Input))
    → SameStored q r
    → SameResult (q >>= λ (rc, m, a). finish rc m a) (r >>= λ (rc, m, a). finish rc m a)
body_and_finish-SameResult (ok (rc, m, a)) (ok (rd, k, b)) (e, d, h) =
    subst (λ x. SameResult (finish rc m a) (finish x k b)) e
      (subst (λ x. SameResult (finish rc m a) (finish rc x b)) d (finish-SameResult rc m a b h))
body_and_finish-SameResult died died h = tt
body_and_finish-SameResult fault fault h = tt
body_and_finish-SameResult (ok x) died h = absurd h
body_and_finish-SameResult (ok x) fault h = absurd h
body_and_finish-SameResult died (ok x) h = absurd h
body_and_finish-SameResult died fault h = absurd h
body_and_finish-SameResult fault (ok x) h = absurd h
body_and_finish-SameResult fault died h = absurd h

after_header-SameResult :
    (r : ℤ × Msg × ℤ) (a b : Input)
    → SameBytes a b
    → SameResult (after_header r a) (after_header r b)
after_header-SameResult (rc, m, n) a b f =
    elim (Bool-cases (succeeded rc && not (eq_ℤ n (pos 0)))) [
      | inl body ↦ rw body (
          body_and_finish-SameResult (read_body a m n) (read_body b m n)
            (read_body-SameStored m n a b f))
      | inr bare ↦ rw bare (finish-SameResult rc m a b (λ _. f))
    ]

tested-SameResult :
    (q r : Bool × HdrState × Input) (t : Bool × HdrState × Bytes)
    → HeaderLoops q t
    → HeaderLoops r t
    → SameResult
        (if ltb_ℤ (pos 2) (if q.0 then pos (length q.1.buffer) else rc_err)
          then parse_message (cut_at_dot q.1) q.2
          else ok (none, q.2))
        (if ltb_ℤ (pos 2) (if r.0 then pos (length r.1.buffer) else rc_err)
          then parse_message (cut_at_dot r.1) r.2
          else ok (none, r.2))
unfolding parse_message
tested-SameResult (d, st, a) (d', st', b) (u, v, s) (e, k, f) (e', k', g) =
    rw (e, e', k, k')
      (elim (Bool-cases (ltb_ℤ (pos 2) (if u then pos (length v.buffer) else rc_err))) [
        | inl long ↦
            rw long (after_header-SameResult (parse_header create (cut_at_dot v)) a b (s, f, g))
        | inr short ↦ rw short tt
      ])

within :
    (a b : Input) (max : ℕ)
    → 0 < max
    → NoErrors a
    → NoErrors b
    → stream a ≡ stream b
    → SameResult (parse_within a max) (parse_within b max)
unfolding parse_within
within a b max p fa fb e =
    rw (read_header_lem a max p, read_header_lem b max p)
      (tested-SameResult (hdr_loop max hdr_start a) (hdr_loop max hdr_start b)
        (flat_loop max hdr_start (stream b))
        (hdr_loop-flat_loop max hdr_start (stream b) a (record { spells = e; fine = fa }))
        (hdr_loop-flat_loop max hdr_start (stream b) b (record { spells = refl; fine = fb })))

-- On two inputs of the same bytes, each without an error, and with room for a byte, `hms_msg_parse`
-- does the same, however the bytes are cut into chunks: the same message with the same bytes left,
-- NULL, or the end of the process.
pub parse-SameResult :
    (a b : Input) (max : ℕ)
    → 0 < max
    → NoErrors a
    → NoErrors b
    → stream a ≡ stream b
    → SameResult (parse a max) (parse b max)
unfolding parse
parse-SameResult a b max p fa fb e = elim (Bool-cases (ltb (max + 1) int_min_abs)) [
  | inl small ↦ rw small (within a b max p fa fb e)
  | inr large ↦ rw large tt
]
