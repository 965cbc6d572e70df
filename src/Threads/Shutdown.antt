-- ===== src/Threads/Shutdown.antt =====
-- `hermes_shutdown` of src/hms/hermes.c among the threads: what holds when it has returned, and
-- what it waits for.
use hermes_c.Endpoint.{Endpoint, Ops}
use hermes_c.Manager.{Manager, ThreadPool, add_work, endpoint_task, hermes_init}
use hermes_c.Prelude.{
  ℕ, ◌+◌, ◌≡◌, ◌≢◌, ◌∙◌, refl, sym, ap, Bool, true, false, some, List, [], ◌∷◌, All, All-get_elem?,
  get_elem?, length, total, arith, ℤ, cons-ne-nil, replicate,
}
use hermes_c.Process.{Run, ok, died, fault, ◌>>=◌, Holds}
use hermes_c.Socket.{Socket}
use hermes_c.Threads.Accounts.{held, waiting}
use hermes_c.Threads.Ledger.{hermes_init-Accounts}
use hermes_c.Threads.Start.{Reach-Outcome}
use hermes_c.Threads.{
  race, block, wake, blocked, unlocking, unlock_fails, unlock_passes, Inner, Reach, Step, System,
  Worker, accept, accepting, add, adding, after_open, after_round, attempt, checking, close_pool,
  connections, fail, flag, hand_over, handling, idle, init, inner, join, leave, listening, opening,
  outer, serve, serve_round, set_worker, shut, started, stopped, take, work,
}

module _ {Pool : Type 0} (tpool : ThreadPool Pool) where
  -- Nothing runs and nothing waits.
  record Over (s : System Pool) : Type 0 where
    all_idle : All (λ w. w ≡ idle) s.workers
    none_waits : waiting tpool s ≡ []

  abbrev EndsWell : System Pool → Type 0
  EndsWell s = s.owner ≡ stopped → Over s

  -- A thread that does something is not idle.
  busy :
      (s : System Pool) (i : ℕ) (w : Worker) {r : System Pool}
      → get_elem? s.workers i ≡ some w
      → w ≢ idle
      → EndsWell s
      → s.owner ≡ stopped
      → Over r
  busy s i w g b h e = absurd (b (All-get_elem? (λ w. w ≡ idle) s.workers i w (h e).all_idle g))

  serve-EndsWell :
      (s : System Pool) (i : ℕ) (e : Endpoint) (old : ℤ) (r : Run (Bool × ℤ × Socket))
      → get_elem? s.workers i ≡ some (handling e old)
      → EndsWell s
      → Holds EndsWell (r >>= λ x. ok (after_round s i e x))
  unfolding after_round
  serve-EndsWell s i e old (ok (true, status, fd)) g h = busy s i (handling e old) g (λ q. cc) h
  serve-EndsWell s i e old (ok (false, status, fd)) g h = busy s i (handling e old) g (λ q. cc) h
  serve-EndsWell s i e old died g h = tt
  serve-EndsWell s i e old fault g h = tt

  add-EndsWell :
      (s : System Pool) (i : ℕ) (e : Endpoint) (r : Run Pool)
      → get_elem? s.workers i ≡ some (listening (adding e))
      → EndsWell s
      → Holds EndsWell (
          r >>= λ p. ok (
            set_worker
              (record s { manager = record s.manager { pool = p } })
              i
              (listening accepting)))
  add-EndsWell s i e (ok p) g h = busy s i (listening (adding e)) g (λ q. cc) h
  add-EndsWell s i e died g h = tt
  add-EndsWell s i e fault g h = tt

  Inner-EndsWell :
      (s : System Pool) (r : Run (System Pool)) → Inner tpool s r → EndsWell s → Holds EndsWell r
  unfolding after_open hand_over close_pool
  Inner-EndsWell s r (work (take i {t} {p} g q)) h = λ e. absurd (
      cons-ne-nil t (tpool.queued p)
        (sym (tpool.takes_some s.manager.pool t p q) ∙ (h e).none_waits))
  Inner-EndsWell s r (work (serve i now {e} {status} _ g)) h =
      serve-EndsWell s i e status (serve_round now e.ops status e.socket) g h
  Inner-EndsWell s r (work (block i {e} {status} g)) h = busy s i (handling e status) g (λ q. cc) h
  Inner-EndsWell s r (work (wake i {e} {status} g)) h = busy s i (blocked e status) g (λ q. cc) h
  Inner-EndsWell s r (work (unlock_fails i g)) h = tt
  Inner-EndsWell s r (work (unlock_passes i g)) h = busy s i unlocking g (λ q. cc) h
  Inner-EndsWell s r (attempt i n a g) h = busy s i (listening (opening n)) g (λ q. cc) h
  Inner-EndsWell s r (leave i {fd} g down) h = busy s i (listening (checking fd)) g (λ q. cc) h
  Inner-EndsWell s r (init i {fd} g up) h = busy s i (listening (checking fd)) g (λ q. cc) h
  Inner-EndsWell s r (add i {e} g) h =
      add-EndsWell s i e (add_work tpool s.manager.pool (endpoint_task e)) g h
  Inner-EndsWell s r (race i g e) h = tt
  Inner-EndsWell s r (flag e) h = λ q. cc
  Inner-EndsWell s r (shut force e) h = λ q. cc
  Inner-EndsWell s r (join e all_idle none_waits) h =
      λ q. record { all_idle = all_idle; none_waits = none_waits }

  Step-EndsWell :
      (s : System Pool) (r : Run (System Pool)) → Step tpool s r → EndsWell s → Holds EndsWell r
  Step-EndsWell s r (inner st) h = Inner-EndsWell s r st h
  Step-EndsWell s r (outer (accept i fd g)) h = busy s i (listening accepting) g (λ q. cc) h
  Step-EndsWell s r (outer (fail i g)) h = busy s i (listening accepting) g (λ q. cc) h

  idle-held : (ws : List Worker) → All (λ w. w ≡ idle) ws → total held ws ≡ 0
  idle-held [] h = refl
  idle-held (w ∷ ws) (e, h) = rw (e, idle-held ws h) refl

  -- Once `hermes_shutdown` of a server has returned, in whatever order its threads ran before and
  -- run then: all its threads are free, no task waits in the pool, and each connection that was
  -- ever accepted has been closed, or was lost in the shutdown.
  pub hermes_shutdown-ends :
      (garbage num_threads server_port : ℤ) (ops : Ops) (n : ℕ) (m : Manager Pool) (s : System Pool)
      → hermes_init tpool garbage num_threads server_port ops ≡ ok m
      → Reach tpool (started m (replicate n idle)) (ok s)
      → s.owner ≡ stopped
      → All (λ w. w ≡ idle) s.workers
        × (waiting tpool s ≡ [])
        × (length s.closed + s.lost ≡ length s.accepted)
  hermes_shutdown-ends garbage num_threads server_port ops n m s e reached done =
      let over = Reach-Outcome tpool (Unit {0}) EndsWell Step-EndsWell (λ q. cc) reached done in
      let c = hermes_init-Accounts tpool garbage num_threads server_port ops n m s e reached in
      (
        over.all_idle,
        over.none_waits,
        omega (arith, c.balance, idle-held s.workers over.all_idle, ap connections over.none_waits),
      )
