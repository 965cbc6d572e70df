-- ===== src/Threads/Liveness.antt =====
-- What becomes of the connections of a server of src/hms/hermes.c as its threads go on.
use hermes_c.Endpoint.{Ops}
use hermes_c.Manager.{Manager, ThreadPool, hermes_init}
use hermes_c.Prelude.{ℕ, suc, ◌+◌, ◌≤◌, ◌≡◌, ◌⊎◌, inl, inr, replicate, total, length, arith, ℤ}
use hermes_c.Process.{ok}
use hermes_c.Threads.Accounts.{waiting}
use hermes_c.Threads.Behaved.{GivenAlways, hermes_init-Safe}
use hermes_c.Threads.Ledger.{hermes_init-Accounts}
use hermes_c.Threads.Progress.{
  CanMove, Works, Works-Advanced, blocks, more, none_yet, potential, progress, unserved,
}
use hermes_c.Threads.{Reach, System, connections, idle, inner, next, started, work}

module _ {Pool : Type 0} (tpool : ThreadPool Pool) where
  pub Works-Reach :
      {start s t : System Pool} {k : ℕ}
      → Reach tpool start (ok s)
      → Works tpool s k t
      → Reach tpool start (ok t)
  Works-Reach reached none_yet = reached
  Works-Reach reached (more {t} before st m) =
      next {s = t} (Works-Reach reached before) (inner (work st))

  -- From any point that a server gets to, with operations that behave, the steps in which its
  -- threads take tasks, handle connections and end come to an end, whatever their order: there are
  -- at most `potential` of them: three for each connection that waits, two for each that is held,
  -- one for each byte that these still bring, one for each thread that is about to unlock the mutex
  -- of a freed endpoint, where the unlock passes, and one for the listener if it waits. Behind any
  -- number of them a thread has a further one, which may end the process; or all connections that
  -- waited or were held have been closed, but for those whose thread is blocked by a silent peer
  -- and those that wait; and one waits only where all threads but one at most are blocked.
  pub hermes_init-serves :
      (garbage num_threads server_port : ℤ) (ops : Ops) (n : ℕ) (m : Manager Pool)
      (s t : System Pool) (k : ℕ)
      → GivenAlways ops
      → hermes_init tpool garbage num_threads server_port ops ≡ ok m
      → Reach tpool (started m (replicate n idle)) (ok s)
      → Works tpool s k t
      → (k ≤ potential tpool s)
        × (CanMove tpool t
            ⊎ ((length t.closed + total blocks t.workers + connections (waiting tpool t)
                  ≡ length s.closed + unserved tpool s)
                × ((connections (waiting tpool t) ≡ 0)
                    ⊎ (length t.workers ≤ suc (total blocks t.workers)))))
  hermes_init-serves garbage num_threads server_port ops n m s t k g e reached works =
      let there = Works-Reach reached works in
      let c = hermes_init-Accounts tpool garbage num_threads server_port ops n m t e there in
      let a =
        Works-Advanced tpool ops g
          (hermes_init-Safe tpool ops g garbage num_threads server_port n m s e reached).0 works in
      (
        omega (arith, a.nearer),
        elim (progress tpool t) [
          | inl further ↦ inl further
          | inr (still, inl none_waits) ↦ inr (omega (arith, a.kept, still), inl none_waits)
          | inr (still, inr all_busy) ↦
              inr (omega (arith, a.kept, still), inr (omega (arith, all_busy, c.one_listener)))
        ],
      )
