-- ===== src/Threads/Progress.antt =====
-- How far the threads of the pool of src/hms/hermes.c get with the connections that were accepted.
use hermes_c.Endpoint.{Endpoint, Ops}
use hermes_c.Manager.{Task, ThreadPool, endpoint_task, listen_task}
use hermes_c.Parser.Consumes.{remaining}
use hermes_c.Prelude.{
  ℕ, suc, ◌+◌, ◌≤◌, ◌<◌, ◌≡◌, ◌⊎◌, inl, inr, refl, ap, Bool, true, false, some, List, [], ◌∷◌,
  All-get_elem?, get_elem?, length, total, total-set, arith, Option-cases, ℤ,
}
use hermes_c.Process.{Run, ok, died, fault, ◌>>=◌, Holds}
use hermes_c.Socket.{Socket}
use hermes_c.Threads.Accounts.{listens, waiting}
use hermes_c.Threads.Behaved.{Behaved, GivenAlways, Work-Behaved, WorkerBehaves}
use hermes_c.Threads.Rounds.{RoundOutcome, serve_round-RoundOutcome}
use hermes_c.Threads.{
  System, Work, Worker, after_round, begin, block, blocked, connections, handling, idle,
  is_connection, listening, serve, serve_round, set_pool, set_worker, take, unlock_fails,
  unlock_passes, unlocking, wake,
}

-- How many steps a task and a thread are from their end, at most.
abbrev task_potential : Task → ℕ
task_potential listen_task = 1
task_potential (endpoint_task e) = remaining e.socket.incoming + 3

abbrev potential_of : Worker → ℕ
potential_of idle = 0
potential_of (listening l) = 0
potential_of (handling e status) = remaining e.socket.incoming + 2
potential_of (blocked e status) = remaining e.socket.incoming + 2
potential_of unlocking = 1

-- The threads that hold a connection, and those of them whose peer is silent.
abbrev pub serves : Worker → ℕ
serves idle = 0
serves (listening l) = 0
serves (handling e status) = 1
serves (blocked e status) = 1
serves unlocking = 0

abbrev pub blocks : Worker → ℕ
blocks (blocked e status) = 1
blocks _ = 0

begin-potential : (t : Task) → suc (potential_of (begin t)) ≡ task_potential t
begin-potential listen_task = refl
begin-potential (endpoint_task e) = omega arith

begin-serves : (t : Task) → serves (begin t) ≡ is_connection t
begin-serves listen_task = refl
begin-serves (endpoint_task e) = refl

-- A thread that can go on.
abbrev Can : List Worker → Type 0
Can ws =
    ((i : ℕ) × (e : Endpoint) × (status : ℤ) × (get_elem? ws i ≡ some (handling e status)))
    ⊎ ((i : ℕ) × (get_elem? ws i ≡ some unlocking))

Can-cons : (w : Worker) (ws : List Worker) → Can ws → Can (w ∷ ws)
Can-cons w ws (inl (i, e, status, g)) = inl (suc i, e, status, g)
Can-cons w ws (inr (i, g)) = inr (suc i, g)

-- All connections that are held are held by blocked threads, and one thread is free, or all are
-- blocked or listen.
abbrev Still : List Worker → Type 0
Still ws =
    (total serves ws ≡ total blocks ws)
    × (((i : ℕ) × (get_elem? ws i ≡ some idle)) ⊎ (length ws ≡ total blocks ws + total listens ws))

Still-cons :
    (w : Worker) (ws : List Worker)
    → serves w ≡ blocks w
    → blocks w + listens w ≡ 1
    → Still ws
    → Still (w ∷ ws)
Still-cons w ws e o (z, inl (i, g)) = (omega (arith, z, e), inl (suc i, g))
Still-cons w ws e o (z, inr n) = (omega (arith, z, e), inr (omega (arith, n, o)))

cons_busy :
    (w : Worker) (ws : List Worker)
    → serves w ≡ blocks w
    → blocks w + listens w ≡ 1
    → Can ws ⊎ Still ws
    → Can (w ∷ ws) ⊎ Still (w ∷ ws)
cons_busy w ws e o (inl c) = inl (Can-cons w ws c)
cons_busy w ws e o (inr s) = inr (Still-cons w ws e o s)

cons_free : (ws : List Worker) → Can ws ⊎ Still ws → Can (idle ∷ ws) ⊎ Still (idle ∷ ws)
cons_free ws (inl c) = inl (Can-cons idle ws c)
cons_free ws (inr (z, _)) = inr (omega (arith, z), inl (0, refl))

look : (ws : List Worker) → Can ws ⊎ Still ws
look [] = inr (refl, inr refl)
look (handling e status ∷ ws) = inl (inl (0, e, status, refl))
look (unlocking ∷ ws) = inl (inr (0, refl))
look (idle ∷ ws) = cons_free ws (look ws)
look (listening l ∷ ws) = cons_busy (listening l) ws refl refl (look ws)
look (blocked e status ∷ ws) = cons_busy (blocked e status) ws refl refl (look ws)

module _ {Pool : Type 0} (tpool : ThreadPool Pool) where
  abbrev pub potential : System Pool → ℕ
  potential s = total task_potential (waiting tpool s) + total potential_of s.workers

  -- The connections that wait or are held.
  abbrev pub unserved : System Pool → ℕ
  unserved s = total serves s.workers + connections (waiting tpool s)

  -- The steps that bring a connection on: not the silence of a peer or its end, and not a fault.
  abbrev pub IsMove : {s : System Pool} {r : Run (System Pool)} → Work tpool s r → Type 0
  IsMove (take _ _ _) = Unit {0}
  IsMove (serve _ _ _ _) = Unit {0}
  IsMove (block _ _) = ⊥
  IsMove (wake _ _) = ⊥
  IsMove (unlock_fails _ _) = ⊥
  IsMove (unlock_passes _ _) = Unit {0}

  abbrev pub CanMove : System Pool → Type 0
  CanMove s = (r : Run (System Pool)) × (w : Work tpool s r) × IsMove w

  -- `n` such steps, in any order.
  pub data Works (s : System Pool) : ℕ → System Pool → Type 0 where
    none_yet : Works s 0 s
    more :
        {n : ℕ} {t u : System Pool}
        → Works s n t
        → (w : Work tpool t (ok u)) → IsMove w
        → Works s (suc n) u

  -- What a step of these threads changes.
  record Advances (s t : System Pool) : Type 0 where
    nearer : potential t < potential s
    kept : length t.closed + unserved t ≡ length s.closed + unserved s

  take-Advances :
      (s : System Pool) (i : ℕ) (t : Task) (p : Pool)
      → get_elem? s.workers i ≡ some idle
      → waiting tpool s ≡ t ∷ tpool.queued p
      → Advances s (set_worker (set_pool s p) i (begin t))
  take-Advances s i t p g e = record {
    nearer = omega (
      arith,
      ap (total task_potential) e,
      total-set potential_of s.workers i idle (begin t) g,
      begin-potential t,
    );
    kept = omega (
      arith,
      ap (total is_connection) e,
      total-set serves s.workers i idle (begin t) g,
      begin-serves t,
    );
  }

  serve-Advances :
      (s : System Pool) (i : ℕ) (e : Endpoint) (old : ℤ) (r : Run (Bool × ℤ × Socket))
      → get_elem? s.workers i ≡ some (handling e old)
      → RoundOutcome r (remaining e.socket.incoming)
      → Holds (Advances s) (r >>= λ x. ok (after_round s i e x))
  unfolding after_round
  serve-Advances s i e old (ok (true, status, fd)) g o =
      let after = handling (record e { socket = fd }) status in
      record {
        nearer = omega (arith, o refl, total-set potential_of s.workers i (handling e old) after g);
        kept = omega (arith, total-set serves s.workers i (handling e old) after g);
      }
  serve-Advances s i e old (ok (false, status, fd)) g o = record {
    nearer = omega (arith, total-set potential_of s.workers i (handling e old) unlocking g);
    kept = omega (arith, total-set serves s.workers i (handling e old) unlocking g);
  }
  serve-Advances s i e old died g o = tt
  serve-Advances s i e old fault g o = tt

module _ {Pool : Type 0} (tpool : ThreadPool Pool) (ops : Ops) (g : GivenAlways ops) where
  Work-Advances :
      (s : System Pool) (r : Run (System Pool)) (w : Work tpool s r)
      → IsMove tpool w
      → Behaved tpool ops g s
      → Holds (Advances tpool s) r
  Work-Advances s r (take i {t} {p} g q) m h =
      take-Advances tpool s i t p g (tpool.takes_some s.manager.pool t p q)
  Work-Advances s r (serve i now {e} {status} time g) m h =
      serve-Advances tpool s i e status (serve_round now e.ops status e.socket) g (
        serve_round-RoundOutcome now e.ops status e.socket
          (All-get_elem? WorkerBehaves s.workers i (handling e status) h.threads g now time))
  Work-Advances s r (block i g) m h = absurd m
  Work-Advances s r (wake i g) m h = absurd m
  Work-Advances s r (unlock_fails i g) m h = absurd m
  Work-Advances s r (unlock_passes i g) m h = record {
    nearer = omega (arith, total-set potential_of s.workers i unlocking idle g);
    kept = omega (arith, total-set serves s.workers i unlocking idle g);
  }

  -- What `n` steps have done.
  pub record Advanced (s : System Pool) (n : ℕ) (t : System Pool) : Type 0 where
    pub nearer : potential tpool t + n ≤ potential tpool s
    pub kept : length t.closed + unserved tpool t ≡ length s.closed + unserved tpool s
    pub behaved : Behaved tpool ops g t

  pub Works-Advanced :
      {s t : System Pool} {n : ℕ} → Behaved tpool ops g s → Works tpool s n t → Advanced s n t
  Works-Advanced h none_yet = record { nearer = omega arith; kept = refl; behaved = h }
  Works-Advanced h (more {t} {u} before st m) =
      let a = Works-Advanced h before in
      let b = Work-Advances t (ok u) st m a.behaved in
      record {
        nearer = omega (arith, a.nearer, b.nearer);
        kept = omega (arith, a.kept, b.kept);
        behaved = Work-Behaved tpool ops g t u st a.behaved;
      }

module _ {Pool : Type 0} (tpool : ThreadPool Pool) where
  -- Where no thread can go on, every connection that is held is held by a blocked thread; and one
  -- waits only where all threads are blocked or listen.
  pub progress :
      (s : System Pool)
      → CanMove tpool s
        ⊎ ((total serves s.workers ≡ total blocks s.workers)
            × ((connections (waiting tpool s) ≡ 0)
                ⊎ (length s.workers ≡ total blocks s.workers + total listens s.workers)))
  progress s = elim (look s.workers) [
    | inl (inl (i, e, status, g)) ↦ inl (_, serve i [] (omega arith) g, tt)
    | inl (inr (i, g)) ↦ inl (_, unlock_passes i g, tt)
    | inr (z, inl (i, g)) ↦ elim (Option-cases (tpool.tpool_take s.manager.pool)) [
      | inl nothing ↦
          inr (z, inl (ap (total is_connection) (tpool.takes_none s.manager.pool nothing)))
      | inr ((t, p), q) ↦ inl (_, take i g q, tt)
    ]
    | inr (z, inr n) ↦ inr (z, inr n)
  ]
