-- ===== src/Manager.antt =====
-- The manager of src/hms/hermes.c: starting and stopping a server, and the thread that listens.
-- The thread pool (src/tpool) is a copy of the example of a book, so it is a parameter here.
pub mod Listen
use hermes_c.CText.{Bytes}
use hermes_c.Endpoint.{Callback, Endpoint, Ops}
use hermes_c.Prelude.{
  ℕ, ◌+◌, ◌*◌, ◌≡◌, ◌==◌, ◌⊎◌, Bool, true, false, not, ◌&&◌, ◌||◌, Option, none, some, List, [],
  ◌∷◌, ◌++◌, if◌then◌else◌, ℤ, pos, negsuc, incr, ltb_ℤ,
}
use hermes_c.Process.{Run, ok, ◌>>=◌, ◌>>◌, rc_ok, rc_err, assert_not_equals}
use hermes_c.Server.{default_handle, default_validate, endpoint_init}
use hermes_c.Socket.{Socket}

-- What a thread of the pool is given: a function and its argument.
pub data Task : Type 0 where
  listen_task : Task
  endpoint_task : Endpoint → Task

-- What the server uses of the pool. `queued` is the list of the tasks that wait, the oldest first;
-- `tpool_take` is what a thread of the pool does when it is free. A pool that is destroyed drops
-- the tasks that wait, or still finishes them.
pub record ThreadPool (Pool : Type 0) : Type 1 where
  pub tpool_init : ℤ → ℤ → Bool → Pool
  pub tpool_add_work : Pool → Task → ℤ × Pool
  pub tpool_destroy : Pool → ℤ → Pool
  pub tpool_take : Pool → Option (Task × Pool)
  pub queued : Pool → List Task
  pub inits :
      (num_threads max_queue_size : ℤ) (do_not_block : Bool)
      → queued (tpool_init num_threads max_queue_size do_not_block) ≡ []
  pub adds :
      (p : Pool) (t : Task)
      → ((tpool_add_work p t).0 ≡ rc_err) ⊎ (queued (tpool_add_work p t).1 ≡ queued p ++ t ∷ [])
  pub takes_none : (p : Pool) → tpool_take p ≡ none → queued p ≡ []
  pub takes_some :
      (p : Pool) (t : Task) (q : Pool) → tpool_take p ≡ some (t, q) → queued p ≡ t ∷ queued q
  pub destroys :
      (p : Pool) (finish : ℤ)
      → (queued (tpool_destroy p finish) ≡ []) ⊎ (queued (tpool_destroy p finish) ≡ queued p)

pub record Manager (Pool : Type 0) : Type 0 where
  pub server_socket : ℤ
  pub server_port : ℤ
  pub shutdown : Bool
  pub num_threads : ℤ
  pub pool : Pool
  pub dops : Ops
  pub ops : Ops

-- What the system calls of one round of `retry_listen` say.
pub record Attempt : Type 0 where
  pub sockfd : ℤ
  pub has_socket : Bool
  pub sets_reuse : Bool
  pub binds : Bool
  pub listens : Bool

unfoldable pub next_sleep : ℕ → ℕ
next_sleep sleep_time =
    if sleep_time == 0 then 2 else if sleep_time == 2 then 2 * sleep_time else sleep_time

abbrev pub attempt_works : Attempt → Bool
attempt_works a = a.has_socket && a.sets_reuse && a.binds && a.listens

-- A round that worked ends the loop, and one that did not goes back to the label.
abbrev after_attempt : Bool → List ℕ × Bool → List ℕ × Bool
after_attempt true later = ([], true)
after_attempt false later = later

abbrev sleep : ℕ → List ℕ × Bool → List ℕ × Bool
sleep sleep_time (sleeps, works) = (if sleep_time == 0 then sleeps else sleep_time ∷ sleeps, works)

-- The rounds of `retry_listen`: the arguments of `sleep`, in order, and whether one of the attempts
-- worked.
unfoldable pub retry_listen : ℕ → List Attempt → List ℕ × Bool
unfolding next_sleep
retry_listen sleep_time [] = ([], false)
retry_listen sleep_time (a ∷ attempts) =
    let later = retry_listen (next_sleep sleep_time) attempts in
    sleep sleep_time (after_attempt (attempt_works a) later)

-- What `accept` returns: -1, or a connection, with the flag `shutdown` as it is then.
pub data Accept : Type 0 where
  accept_failed : Accept
  accepted : (shutdown : Bool) (fd : Socket) → Accept

-- How the loop stands: it waits for the next connection, or the thread has returned.
pub data Listening : Type 0 where
  waiting returned : Listening

module _ {Pool : Type 0} (tpool : ThreadPool Pool) where
  -- `hms_assert_not_equals(-1, tpool_add_work(...))`.
  unfoldable pub add_work : Pool → Task → Run Pool
  unfolding assert_not_equals
  add_work pool task =
      let (rc, after) = tpool.tpool_add_work pool task in assert_not_equals rc_err rc >> ok after

  -- The loop of `_hms_listen` over the connections that come in.
  unfoldable pub accept_loop : Pool → Ops → List Accept → Run (Listening × Pool)
  accept_loop pool ops [] = ok (waiting, pool)
  accept_loop pool ops (accept_failed ∷ events) = ok (returned, pool)
  accept_loop pool ops (accepted true fd ∷ events) = ok (returned, pool)
  accept_loop pool ops (accepted false fd ∷ events) =
      add_work pool (endpoint_task (endpoint_init fd ops)) >>= λ after. accept_loop after ops events

  -- `_hms_listen`: nothing is accepted until an attempt works.
  unfoldable pub listen : Manager Pool → List Attempt → List Accept → Run (Listening × Pool)
  listen manager attempts events =
      if (retry_listen 0 attempts).1
      then accept_loop manager.pool manager.ops events
      else ok (waiting, manager.pool)

  -- `garbage` is what `malloc` left in the member `server_socket`, which nothing sets here.
  unfoldable pub hermes_init : ℤ → ℤ → ℤ → Ops → Run (Manager Pool)
  hermes_init garbage num_threads server_port ops =
      let start = tpool.tpool_init (incr (incr num_threads)) (pos 10) true in
      let started : Run Pool =
        if ltb_ℤ (pos 0) server_port then add_work start listen_task else ok start in
      started >>= λ pool. ok (record {
        server_socket = garbage;
        server_port = server_port;
        shutdown = false;
        num_threads = num_threads;
        pool = pool;
        dops = record {
          hms_validate = some default_validate;
          hms_accepts = none;
          hms_handle = some default_handle;
        };
        ops = ops;
      })

  -- `force` is the argument `finish` of the pool. The descriptor that is closed is returned as
  -- well.
  unfoldable pub hermes_shutdown : Manager Pool → ℤ → ℤ × ℤ × Manager Pool
  hermes_shutdown manager force = (
    rc_ok,
    manager.server_socket,
    record manager { shutdown = true; pool = tpool.tpool_destroy manager.pool force },
  )
