-- ===== src/Threads/Replies.antt =====
-- What the clients of a server of src/hms/hermes.c get, with all its threads running.
use hermes_c.Endpoint.Delivery.{Enough}
use hermes_c.Manager.{Manager, ThreadPool, hermes_init}
use hermes_c.Prelude.{
  ℕ, suc, ◌+◌, ◌≡◌, ◌∙◌, inl, inr, sym, subst, false, List, [], ◌∷◌, ◌++◌, All, All-map, Any,
  Any-map, arith, length, replicate, ℤ,
}
use hermes_c.Process.{ok, Holds}
use hermes_c.Server.Session.{CanRead, Request, handle_endpoint-replies, no_ops, replies, requests}
use hermes_c.Socket.{NoErrors, Socket, stream}
use hermes_c.Threads.Isolation.{hermes_init-Handled}
use hermes_c.Threads.Sequential.{Handled, at_times, at_times-IsTime}
use hermes_c.Server.{Clock}
use hermes_c.Threads.{IsTime, Reach, System, idle, started}

-- A connection on which a client sends messages that can be read, and takes the replies, whatever
-- the texts of the time in them are.
pub record Brings (fd : Socket) : Type 0 where
  pub sent : List Request
  pub can_read : CanRead sent
  pub fine : NoErrors fd.incoming
  pub spells : stream fd.incoming ≡ requests sent
  pub enough :
      (clock : Clock) → ((n : ℕ) → IsTime (clock n)) → Enough (length (replies clock sent)) fd

-- Such a connection behind its end: its messages are answered at some times, up to the one that
-- ends it.
abbrev pub IsAnswered : Socket → Socket → Type 0
IsAnswered c fd =
    (rs : List Request) × (clock : Clock) × ((n : ℕ) → IsTime (clock n))
    × CanRead rs
    × (stream fd.incoming ≡ requests rs)
    × (c.outgoing ≡ fd.outgoing ++ replies clock rs)
    × (c.is_open ≡ false)

both :
    (P Q : Socket → Type 0) (fds : List Socket)
    → All P fds
    → Any Q fds
    → Any (λ fd. P fd × Q fd) fds
both P Q [] p q = absurd q
both P Q (fd ∷ fds) (p, ps) (inl q) = inl (p, q)
both P Q (fd ∷ fds) (p, ps) (inr qs) = inr (both P Q fds ps qs)

Handled-IsAnswered : (c fd : Socket) → Brings fd → Handled no_ops fd c → IsAnswered c fd
Handled-IsAnswered c fd b h =
    let still : Clock = λ n. [] in
    let clock = at_times h.times still in
    let short = at_times-IsTime h.times still h.short (λ n. omega arith) in
    let fuel = length h.times + suc (length b.sent) in
    let (last, e, out, shut) =
      handle_endpoint-replies fuel b.sent clock fd (λ n. omega (arith, short n)) b.can_read b.fine
        b.spells (b.enough clock short) (omega arith) in
    let there =
      subst (Holds (λ l. (l.outgoing ≡ fd.outgoing ++ replies clock b.sent) × (l.is_open ≡ false)))
        (sym e ∙ h.result (suc (length b.sent)) still) (out, shut) in
    (b.sent, clock, short, b.can_read, b.spells, there.0, there.1)

-- A server with the default operations, with its threads in whatever order: each connection that it
-- closed is one that it accepted, the messages that came in on it are answered, each by its verb
-- and at a time of its own, up to the first one whose reply ends the connection, and it is closed.
-- This holds when on each connection that it accepted a client sends messages that can be read,
-- their headers are at most 1024 bytes, no `read` fails and `send` takes enough. Of the unlock of
-- the freed mutex behind each connection, the runs are meant in which it passes.
pub hermes_init-IsAnswered :
    {Pool : Type 0} (tpool : ThreadPool Pool) (garbage num_threads server_port : ℤ) (n : ℕ)
    (m : Manager Pool) (s : System Pool)
    → hermes_init tpool garbage num_threads server_port no_ops ≡ ok m
    → Reach tpool (started m (replicate n idle)) (ok s)
    → All Brings s.accepted
    → All (λ c. Any (IsAnswered c) s.accepted) s.closed
hermes_init-IsAnswered tpool garbage num_threads server_port n m s e reached brings =
    All-map
      (λ c handled.
        Any-map (λ fd (b, h). Handled-IsAnswered c fd b h) s.accepted
          (both Brings (λ fd. Handled no_ops fd c) s.accepted brings handled))
      s.closed (hermes_init-Handled tpool garbage num_threads server_port no_ops n m s e reached)
