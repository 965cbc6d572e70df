-- ===== src/Server/Loop.antt =====
-- The loop of `_hms_handle_endpoint` in src/hms/hermes.c ends, and closes the connection.
use hermes_c.CText.{Bytes}
use hermes_c.Endpoint.{
  Endpoint, Ops, endpoint_destroy, endpoint_recv_msg, header_max, recv_parts, close,
}
use hermes_c.Msg.Valid.{IsValid}
use hermes_c.Msg.{Msg}
use hermes_c.Parser.Consumes.{Consumes, parse-Consumes, remaining}
use hermes_c.Parser.Outcome.{Outcome, parse-Outcome}
use hermes_c.Parser.{parse, succeeded}
use hermes_c.Prelude.{
  ℕ, zero, suc, ◌+◌, ◌<◌, ◌≤◌, ◌^◌, ◌≡◌, inl, inr, refl, false, Option, none, some, Bool-cases,
  arith, if◌then◌else◌, ℤ, pos, length,
}
use hermes_c.Process.{Run, ok, died, fault, rc_ok, rc_err, ◌>>=◌}
use hermes_c.Server.{
  Clock, later_on, after_recv, default_accepts, default_handle, default_validate, endpoint_init,
  handle_endpoint, serve_loop, serve_msg,
}
use hermes_c.Socket.{Input, Socket}
use hermes_c.Server.Calls.{
  GivenBehaves, OpsBehave, Served, default_accepts-Behaves, default_handle-Behaves,
  default_validate-Behaves, or_default-CallBehaves, serve_msg-Served,
}

-- What receiving leaves.
abbrev pub RecvOutcome : Run (ℤ × Option Msg × Socket) → ℕ → Type 0
RecvOutcome (ok (rc, none, s)) n = rc ≡ rc_err
RecvOutcome (ok (rc, some m, s)) n = (rc ≡ rc_ok) × IsValid m × (remaining s.incoming + 3 ≤ n)
RecvOutcome died n = Unit {0}
RecvOutcome fault n = ⊥

received :
    (s : Socket) (r : Run (Option Msg × Input)) (k : ℤ) (n : ℕ)
    → Outcome r k
    → Consumes r n
    → RecvOutcome
        (r >>= λ (msg, rest). elim msg [
          | none ↦ ok (rc_err, none, record s { incoming = rest })
          | some m ↦ ok (rc_ok, some m, record s { incoming = rest })
        ])
        n
received s (ok (none, rest)) k n o c = refl
received s (ok (some m, rest)) k n o c = (refl, o.valid, c)
received s died k n o c = tt
received s fault k n o c = o

pub endpoint_recv_msg-RecvOutcome :
    (s : Socket) → RecvOutcome (endpoint_recv_msg s) (remaining s.incoming)
unfolding endpoint_recv_msg recv_parts
endpoint_recv_msg-RecvOutcome s =
    received s (parse s.incoming header_max) _ (remaining s.incoming)
      (parse-Outcome s.incoming header_max (omega arith) (omega arith))
      (parse-Consumes s.incoming header_max (omega arith))

-- A loop that ends with a socket, or with the process.
abbrev Ends : Run Socket → Type 0
Ends (ok s) = Unit {0}
Ends died = Unit {0}
Ends fault = ⊥

after_serve :
    (next : ℤ → Socket → Run Socket) (r : Run (ℤ × Socket)) (n : ℕ)
    → Served r n
    → ((rc : ℤ) (s : Socket) → remaining s.incoming ≤ n → Ends (next rc s))
    → Ends (r >>= λ (rc, s). if succeeded rc then next rc s else ok s)
after_serve next (ok (rc, s)) n l h = elim (Bool-cases (succeeded rc)) [
  | inl again ↦ rw again (h rc s l)
  | inr done ↦ rw done tt
]
after_serve next died n l h = tt
after_serve next fault n l h = l

after_recv-Ends :
    (next : ℤ → Socket → Run Socket) (now : Bytes) (ops : Ops) (status : ℤ)
    (r : Run (ℤ × Option Msg × Socket)) (n : ℕ)
    → OpsBehave now ops
    → RecvOutcome r n
    → ((rc : ℤ) (s : Socket) → remaining s.incoming + 3 ≤ n → Ends (next rc s))
    → Ends (r >>= after_recv next now ops status)
unfolding after_recv
after_recv-Ends next now ops status (ok (rc, none, s)) n b e h = rw e tt
after_recv-Ends next now ops status (ok (rc, some m, s)) n b (e, i, l) h = rw e (
    after_serve next (serve_msg now ops status s m) (remaining s.incoming)
      (serve_msg-Served now ops status s m b i) (λ r t k. h r t (omega arith)))
after_recv-Ends next now ops status died n b o h = tt
after_recv-Ends next now ops status fault n b o h = o

serve_loop-Ends :
    (fuel : ℕ) (clock : Clock) (ops : Ops) (status : ℤ) (s : Socket)
    → ((n : ℕ) → OpsBehave (clock n) ops)
    → remaining s.incoming < fuel
    → Ends (serve_loop fuel clock ops status s)
unfolding serve_loop
serve_loop-Ends zero clock ops status s b l = absurd (omega arith)
serve_loop-Ends (suc fuel) clock ops status s b l =
    after_recv-Ends (serve_loop fuel (later_on clock) ops) (clock 0) ops status
      (endpoint_recv_msg s) (remaining s.incoming) (b 0) (endpoint_recv_msg-RecvOutcome s)
      (λ r t k. serve_loop-Ends fuel (later_on clock) ops r t (λ n. b (suc n)) (omega arith))

-- The process ends, or the connection is closed.
abbrev pub Closes : Run Socket → Type 0
Closes (ok s) = s.is_open ≡ false
Closes died = Unit {0}
Closes fault = ⊥

closing :
    (r : Run Socket) (e : Endpoint)
    → Ends r
    → Closes (r >>= λ last. ok (endpoint_destroy (record e { socket = last })))
unfolding endpoint_destroy close
closing (ok s) e h = refl
closing died e h = tt
closing fault e h = h

-- The operations of a user all behave, or are NULL.
pub record GivenBehave (now : Bytes) (ops : Ops) : Type 0 where
  pub time : length now < 2 ^ 30
  pub validates : GivenBehaves now ops.hms_validate
  pub accepts : GivenBehaves now ops.hms_accepts
  pub handles : GivenBehaves now ops.hms_handle

-- With the defaults filled in, all are there and behave.
pub endpoint_init-OpsBehave :
    (now : Bytes) (fd : Socket) (ops : Ops)
    → GivenBehave now ops
    → OpsBehave now (endpoint_init fd ops).ops
unfolding endpoint_init
endpoint_init-OpsBehave now fd ops g = record {
  time = g.time;
  validates =
      or_default-CallBehaves now ops.hms_validate default_validate g.validates
        (default_validate-Behaves now);
  accepts =
      or_default-CallBehaves now ops.hms_accepts default_accepts g.accepts
        (default_accepts-Behaves now);
  handles =
      or_default-CallBehaves now ops.hms_handle default_handle g.handles
        (default_handle-Behaves now g.time);
}

-- A thread that handles a connection leaves its loop and closes the connection, unless the process
-- ends. As many rounds as there are bytes to read, and one more, are enough, whatever arrives and
-- whatever `send` does, when each operation that the user gives behaves and the text of the time,
-- which may be another one in each round, is shorter than 2^30 bytes. Operations that are NULL are
-- replaced, so none is called, and no access is undefined.
pub handle_endpoint-Closes :
    (fuel : ℕ) (clock : Clock) (fd : Socket) (ops : Ops)
    → ((n : ℕ) → length (clock n) < 2 ^ 30)
    → ((n : ℕ) → GivenBehaves (clock n) ops.hms_validate)
    → ((n : ℕ) → GivenBehaves (clock n) ops.hms_accepts)
    → ((n : ℕ) → GivenBehaves (clock n) ops.hms_handle)
    → remaining fd.incoming < fuel
    → Closes (handle_endpoint fuel clock (endpoint_init fd ops))
unfolding handle_endpoint endpoint_init
handle_endpoint-Closes fuel clock fd ops t v a h l =
    closing (serve_loop fuel clock (endpoint_init fd ops).ops (pos 0) fd) (endpoint_init fd ops) (
      serve_loop-Ends fuel clock (endpoint_init fd ops).ops (pos 0) fd
        (λ n.
          endpoint_init-OpsBehave (clock n) fd ops
            (record { time = t n; validates = v n; accepts = a n; handles = h n }))
        l)
