-- ===== src/Tests/Race.antt =====
-- A shutdown between the listener's test of the flag and its call of `tpool_add_work`: a pool that
-- refuses work once it is being destroyed makes the assertion of the listener end the process.
use hermes_c.Manager.{Manager, Task, ThreadPool, add_work, hermes_init, listen_task}
use hermes_c.Prelude.{
  ◌≡◌, refl, inl, inr, ◌⊎◌, Bool, true, false, Option, none, some, List, [], ◌∷◌, ◌++◌, pos,
  replicate, if◌then◌else◌, ℤ, eq_ℤ, arith,
}
use hermes_c.Process.{ok, died, rc_err}
use hermes_c.Server.Session.{no_ops}
use hermes_c.Tests.Interleavings.{one_manager, works}
use hermes_c.Tests.Samples.{silent_socket}
use hermes_c.Threads.{
  Reach, accept, add, after_open, attempt, close_pool, flag, hand_over, here, idle, init, inner,
  next, outer, shut, started, take, work,
}

-- Whether the pool is closed, and its tasks.
abbrev Closable : Type 0
Closable = Bool × List Task

abbrev closable_take : Closable → Option (Task × Closable)
closable_take (c, []) = none
closable_take (c, t ∷ ts) = some (t, (c, ts))

abbrev closable_add : Closable → Task → ℤ × Closable
closable_add (true, ts) t = (rc_err, (true, ts))
closable_add (false, ts) t = (pos 1, (false, ts ++ t ∷ []))

abbrev closable_adds :
    (p : Closable) (t : Task)
    → ((closable_add p t).0 ≡ rc_err) ⊎ ((closable_add p t).1.1 ≡ p.1 ++ t ∷ [])
closable_adds (true, ts) t = inl refl
closable_adds (false, ts) t = inr refl

abbrev closable_none : (p : Closable) → closable_take p ≡ none → p.1 ≡ []
closable_none (c, []) h = refl
closable_none (c, t ∷ ts) h = cc

abbrev closable_some :
    (p : Closable) (t : Task) (q : Closable) → closable_take p ≡ some (t, q) → p.1 ≡ t ∷ q.1
closable_some (c, []) t q h = cc
closable_some (c, x ∷ xs) t q h = cc

-- With `finish` 1 the tasks are finished, else they are dropped.
abbrev closable_destroy : Closable → ℤ → Closable
closable_destroy (c, ts) finish = if eq_ℤ finish (pos 1) then (true, ts) else (true, [])

abbrev closable_destroys :
    (p : Closable) (finish : ℤ)
    → ((closable_destroy p finish).1 ≡ []) ⊎ ((closable_destroy p finish).1 ≡ p.1)
closable_destroys (c, ts) finish = ground arith

abbrev closable_pool : ThreadPool Closable
closable_pool = record {
  tpool_init = λ n q b. (false, []);
  tpool_add_work = closable_add;
  tpool_destroy = closable_destroy;
  tpool_take = closable_take;
  queued = λ p. p.1;
  inits = λ n q b. refl;
  adds = closable_adds;
  takes_none = closable_none;
  takes_some = closable_some;
  destroys = closable_destroys;
}

abbrev closing_manager : Manager Closable
closing_manager = record {
  server_socket = pos 7;
  server_port = pos 8080;
  shutdown = false;
  num_threads = pos 0;
  pool = (false, listen_task ∷ []);
  dops = one_manager.dops;
  ops = no_ops;
}

closing_manager_starts :
    hermes_init closable_pool (pos 7) (pos 0) (pos 8080) no_ops ≡ ok closing_manager
unfolding hermes_init add_work
closing_manager_starts = refl

race_ends_process : Reach closable_pool (started closing_manager (replicate 2 idle)) died
unfolding after_open hand_over add_work close_pool
race_ends_process =
    next
      (next
        (next
          (next
            (next
              (next (next here (inner (work (take 0 refl refl)))) (inner (attempt 0 0 works refl)))
              (outer (accept 0 silent_socket refl)))
            (inner (init 0 refl refl)))
          (inner (flag refl)))
        (inner (shut (pos 1) refl)))
      (inner (add 0 refl))
