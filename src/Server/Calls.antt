-- ===== src/Server/Calls.antt =====
-- What one message that a server of src/hms/hermes.c handles leaves behind.
use hermes_c.CText.{Bytes}
use hermes_c.Endpoint.{Callback, Ops}
use hermes_c.Msg.Valid.{IsValid, destroy-IsValid}
use hermes_c.Msg.{Msg, destroy}
use hermes_c.Parser.Consumes.{remaining}
use hermes_c.Parser.{succeeded}
use hermes_c.Prelude.{
  ℕ, ◌<◌, ◌≤◌, ◌^◌, ◌≡◌, inl, inr, Option, none, some, Bool-cases, arith, ℤ, length,
}
use hermes_c.Process.{Run, ok, died, fault, ◌>>=◌}
use hermes_c.Server.Default.{Replies, default_handle-Replies, reply_text}
use hermes_c.Server.{
  after_accepts, after_validate, call, default_accepts, default_handle, default_validate, serve_msg,
  validate, or_default,
}
use hermes_c.Socket.{Socket}

-- A call that leaves at most `n` bytes to read and a valid message, or ends the process.
abbrev pub Sound : Run (ℤ × Socket × Msg) → ℕ → Type 0
Sound (ok (rc, s, m)) n = (remaining s.incoming ≤ n) × IsValid m
Sound died n = Unit {0}
Sound fault n = ⊥

-- A function of the user that does not run into undefined behaviour, adds no bytes to the input and
-- keeps a valid message valid.
abbrev pub Behaves : Bytes → Callback → Type 0
Behaves now f = (s : Socket) (m : Msg) → IsValid m → Sound (f now s m) (remaining s.incoming)

Replies-Sound :
    (s : Socket) (m : Msg) (t : Option Bytes) (rc : ℤ) (run : Run (ℤ × Socket × Msg))
    → Replies s m (t, rc) run
    → IsValid m
    → Sound run (remaining s.incoming)
Replies-Sound s m none rc run e i = rw e (omega arith, i)
Replies-Sound s m (some t) rc run (r, e, (same, _)) i = rw (e, same) (omega arith, i)

pub default_handle-Behaves : (now : Bytes) → length now < 2 ^ 30 → Behaves now default_handle
default_handle-Behaves now l s m i =
    Replies-Sound s m (reply_text now m.verb).0 (reply_text now m.verb).1 (default_handle now s m)
      (default_handle-Replies now s m l) i

pub default_validate-Behaves : (now : Bytes) → Behaves now default_validate
unfolding default_validate
default_validate-Behaves now s m i = (omega arith, i)

pub default_accepts-Behaves : (now : Bytes) → Behaves now default_accepts
unfolding default_accepts
default_accepts-Behaves now s m i = (omega arith, i)

-- The operations that the user gives behave; NULL stands for a default.
abbrev pub GivenBehaves : Bytes → Option Callback → Type 0
GivenBehaves now none = Unit {0}
GivenBehaves now (some f) = Behaves now f

-- An operation that is there, and behaves.
abbrev pub CallBehaves : Bytes → Option Callback → Type 0
CallBehaves now none = ⊥
CallBehaves now (some f) = Behaves now f

pub or_default-CallBehaves :
    (now : Bytes) (given : Option Callback) (f : Callback)
    → GivenBehaves now given
    → Behaves now f
    → CallBehaves now (or_default given f)
or_default-CallBehaves now none f g b = b
or_default-CallBehaves now (some h) f g b = g

call-Sound :
    (now : Bytes) (op : Option Callback) (s : Socket) (m : Msg) (n : ℕ)
    → CallBehaves now op
    → IsValid m
    → remaining s.incoming ≤ n
    → Sound (call op now s m) n
call-Sound now none s m n b i l = absurd b
call-Sound now (some f) s m n b i l = Sound_le (f now s m) (remaining s.incoming) n l (b s m i)
  where
    Sound_le : (r : Run (ℤ × Socket × Msg)) (k n : ℕ) → k ≤ n → Sound r k → Sound r n
    Sound_le (ok (rc, s, m)) k n l (h, i) = (omega arith, i)
    Sound_le died k n l h = tt
    Sound_le fault k n l h = h

-- All three operations, as `hms_endpoint_init` leaves them.
pub record OpsBehave (now : Bytes) (ops : Ops) : Type 0 where
  pub time : length now < 2 ^ 30
  pub validates : CallBehaves now ops.hms_validate
  pub accepts : CallBehaves now ops.hms_accepts
  pub handles : CallBehaves now ops.hms_handle

Sound-bind :
    (r : Run (ℤ × Socket × Msg)) (f : ℤ × Socket × Msg → Run (ℤ × Socket × Msg)) (n : ℕ)
    → Sound r n
    → ((rc : ℤ) (s : Socket) (m : Msg)
        → remaining s.incoming ≤ n
        → IsValid m
        → Sound (f (rc, s, m)) n)
    → Sound (r >>= f) n
Sound-bind (ok (rc, s, m)) f n (l, i) h = h rc s m l i
Sound-bind died f n l h = tt
Sound-bind fault f n l h = l

after_accepts-Sound :
    (now : Bytes) (ops : Ops) (n : ℕ)
    → OpsBehave now ops
    → (rc : ℤ) (s : Socket) (m : Msg) → remaining s.incoming ≤ n
    → IsValid m
    → Sound (after_accepts now ops (rc, s, m)) n
unfolding after_accepts
after_accepts-Sound now ops n b rc s m l i = elim (Bool-cases (succeeded rc)) [
  | inl accepted ↦ rw accepted (call-Sound now ops.hms_handle s m n b.handles i l)
  | inr refused ↦
      rw refused
        (call-Sound now (some default_handle) s m n (default_handle-Behaves now b.time) i l)
]

after_validate-Sound :
    (now : Bytes) (ops : Ops) (status : ℤ) (n : ℕ)
    → OpsBehave now ops
    → (rc : ℤ) (s : Socket) (m : Msg) → remaining s.incoming ≤ n
    → IsValid m
    → Sound (after_validate now ops status (rc, s, m)) n
unfolding after_validate
after_validate-Sound now ops status n b rc s m l i = elim (Bool-cases (succeeded rc)) [
  | inl valid ↦ rw valid (
      Sound-bind (call ops.hms_accepts now s m) (after_accepts now ops) n
        (call-Sound now ops.hms_accepts s m n b.accepts i l) (after_accepts-Sound now ops n b))
  | inr dropped ↦ rw dropped (l, i)
]

-- What a message leaves to read.
abbrev pub Served : Run (ℤ × Socket) → ℕ → Type 0
Served (ok (rc, s)) n = remaining s.incoming ≤ n
Served died n = Unit {0}
Served fault n = ⊥

served :
    (r : Run (ℤ × Socket × Msg)) (n : ℕ)
    → Sound r n
    → Served (r >>= λ (rc, s, m). destroy m >>= λ _. ok (rc, s)) n
served (ok (rc, s, m)) n (l, i) = rw (destroy-IsValid m i) l
served died n h = tt
served fault n h = h

validate-call :
    (now : Bytes) (ops : Ops) (s : Socket) (m : Msg)
    → CallBehaves now ops.hms_validate
    → validate ops now s m ≡ call ops.hms_validate now s m
validate-call now ops s m b = ground (arith, b)

validated :
    (now : Bytes) (ops : Ops) (status : ℤ) (n : ℕ) (r : Run (ℤ × Socket × Msg))
    → OpsBehave now ops
    → Sound r n
    → Served
        (r >>= λ checked.
          after_validate now ops status checked >>= λ (rc, s, m). destroy m >>= λ _. ok (rc, s))
        n
validated now ops status n (ok (rc, s, m)) b (l, i) =
    served (after_validate now ops status (rc, s, m)) n
      (after_validate-Sound now ops status n b rc s m l i)
validated now ops status n died b h = tt
validated now ops status n fault b h = h

pub serve_msg-Served :
    (now : Bytes) (ops : Ops) (status : ℤ) (s : Socket) (m : Msg)
    → OpsBehave now ops
    → IsValid m
    → Served (serve_msg now ops status s m) (remaining s.incoming)
unfolding serve_msg
serve_msg-Served now ops status s m b i =
    validated now ops status (remaining s.incoming) (validate ops now s m) b (
      rw (validate-call now ops s m b.validates)
        (call-Sound now ops.hms_validate s m (remaining s.incoming) b.validates i (omega arith)))
