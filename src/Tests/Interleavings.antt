-- ===== src/Tests/Interleavings.antt =====
-- The theorems on the threads of a server at one run: with two threads, one listens, takes a
-- connection that says nothing, and hands it to the other one.
use hermes_c.CText.{codes}
use hermes_c.Endpoint.{RecvAll, recv_all, endpoint_destroy, endpoint_recv_msg}
use hermes_c.Manager.{Attempt, Manager, Task, add_work, endpoint_task, hermes_init, listen_task}
use hermes_c.Parser.{hdr_loop, read_header}
use hermes_c.Prelude.{
  suc, total, ◌≤◌, ◌⊎◌, ◌+◌, ◌≡◌, refl, true, false, none, some, List, [], ◌∷◌, All, get_elem?,
  length, replicate, arith, ◌≢◌, cons-ne-nil, pos,
}
use hermes_c.Process.{ok, fault, ◌>>=◌}
use hermes_c.Server.Session.{no_ops}
use hermes_c.Server.{default_handle, default_validate, endpoint_init, handle_endpoint}
use hermes_c.Socket.{read}
use hermes_c.Tests.Samples.{noon, list_pool, silent_socket}
use hermes_c.Endpoint.Receive.{Fills, recv_all-Fills}
use hermes_c.Lifetime.{run_handler, run_handler-handle_endpoint}
use hermes_c.Threads.Accounts.{Accounts, waiting}
use hermes_c.Threads.Behaved.{Behaved, GivenAlways}
use hermes_c.Threads.Blocked.{Quiet, at_once, hermes_shutdown-Blocks, later}
use hermes_c.Threads.Liveness.{hermes_init-serves}
use hermes_c.Threads.Progress.{CanMove, Works, blocks, more, none_yet, potential, unserved}
use hermes_c.Threads.Shutdown.{hermes_shutdown-ends}
use hermes_c.Threads.Ledger.{hermes_init-Accounts}
use hermes_c.Threads.{
  connections, unlocking, unlock_passes, Reach, System, after_round, close_pool, join, leave, shut,
  accept, accepting, add, after_open, attempt, flag, hand_over, here, idle, init, inner, joining,
  listening, next, outer, running, round_after_recv, serve, serve_round, started, stopped, take,
  work,
}

abbrev pub one_manager : Manager (List Task)
one_manager = record {
  server_socket = pos 7;
  server_port = pos 8080;
  shutdown = false;
  num_threads = pos 0;
  pool = listen_task ∷ [];
  dops = record {
    hms_validate = some default_validate;
    hms_accepts = none;
    hms_handle = some default_handle;
  };
  ops = no_ops;
}

pub one_manager_starts : hermes_init list_pool (pos 7) (pos 0) (pos 8080) no_ops ≡ ok one_manager
unfolding hermes_init add_work
one_manager_starts = refl

abbrev pub first : System (List Task)
first = started one_manager (replicate 2 idle)

-- Every attempt works, with descriptor 3.
abbrev pub works : Attempt
works = record {
  sockfd = pos 3;
  has_socket = true;
  sets_reuse = true;
  binds = true;
  listens = true;
}

abbrev queued_once : System (List Task)
queued_once = record {
  manager = record one_manager {
    server_socket = pos 3;
    pool = endpoint_task (endpoint_init silent_socket no_ops) ∷ [];
  };
  workers = listening accepting ∷ idle ∷ [];
  owner = running;
  accepted = silent_socket ∷ [];
  closed = [];
  lost = 0;
}

queued_once_reached : Reach list_pool first (ok queued_once)
unfolding after_open hand_over add_work
queued_once_reached =
    next
      (next
        (next (next (next here (inner (work (take 0 refl refl)))) (inner (attempt 0 0 works refl)))
          (outer (accept 0 silent_socket refl)))
        (inner (init 0 refl refl)))
      (inner (add 0 refl))

hermes_init-Accounts_example : Accounts list_pool queued_once
hermes_init-Accounts_example =
    hermes_init-Accounts list_pool (pos 7) (pos 0) (pos 8080) no_ops 2 one_manager queued_once
      one_manager_starts queued_once_reached

no_ops-GivenAlways : GivenAlways no_ops
no_ops-GivenAlways now t = record {
  time = omega (arith, t);
  validates = tt;
  accepts = tt;
  handles = tt;
}

-- The other thread has taken the connection, read its end, and freed the endpoint.
abbrev freed_once : System (List Task)
freed_once = record queued_once {
  manager = record one_manager { server_socket = pos 3; pool = [] };
  workers = listening accepting ∷ unlocking ∷ [];
  closed = record silent_socket { is_open = false } ∷ [];
}

freed_once_reached : Reach list_pool first (ok freed_once)
unfolding after_round serve_round endpoint_recv_msg read_header hdr_loop read endpoint_init
    round_after_recv endpoint_destroy
freed_once_reached =
    next (next queued_once_reached (inner (work (take 1 refl refl))))
      (inner (work (serve 1 (codes "now") (omega arith) refl)))

-- The other thread takes the connection and closes it.
abbrev served_once : System (List Task)
served_once = record queued_once {
  manager = record one_manager { server_socket = pos 3; pool = [] };
  closed = record silent_socket { is_open = false } ∷ [];
}

served_once_reached : Reach list_pool first (ok served_once)
served_once_reached = next freed_once_reached (inner (work (unlock_passes 1 refl)))

served_once-Works : Works list_pool queued_once 3 served_once
unfolding after_round serve_round endpoint_recv_msg read_header hdr_loop read endpoint_init
    round_after_recv endpoint_destroy
served_once-Works =
    more (more (more none_yet (take 1 refl refl) tt) (serve 1 (codes "now") (omega arith) refl) tt)
      (unlock_passes 1 refl) tt

hermes_init-serves_example :
    (3 ≤ potential list_pool queued_once)
    × (CanMove list_pool served_once
        ⊎ ((length served_once.closed
                + total blocks served_once.workers
                + connections (waiting list_pool served_once)
              ≡ length queued_once.closed + unserved list_pool queued_once)
            × ((connections (waiting list_pool served_once) ≡ 0)
                ⊎ (length served_once.workers ≤ suc (total blocks served_once.workers)))))
hermes_init-serves_example =
    hermes_init-serves list_pool (pos 7) (pos 0) (pos 8080) no_ops 2 one_manager queued_once
      served_once 3 no_ops-GivenAlways one_manager_starts queued_once_reached served_once-Works

-- `hermes_shutdown` is called, and the listener waits for a connection.
abbrev blocked : System (List Task)
blocked = record served_once {
  manager = record served_once.manager { shutdown = true };
  owner = joining;
}

blocked-Quiet : Quiet list_pool served_once blocked
unfolding close_pool
blocked-Quiet = later (later at_once (flag refl)) (shut (pos 1) refl)

hermes_shutdown-Blocks_example :
    (get_elem? blocked.workers 0 ≡ some (listening accepting)) × (blocked.owner ≢ stopped)
hermes_shutdown-Blocks_example =
    hermes_shutdown-Blocks list_pool 0 served_once blocked refl (λ q. cc) blocked-Quiet

-- Another connection lets the listener see the flag; it is not served.
abbrev ended : System (List Task)
ended = record blocked {
  workers = idle ∷ idle ∷ [];
  owner = stopped;
  accepted = silent_socket ∷ silent_socket ∷ [];
  lost = 1;
}

ended_reached : Reach list_pool first (ok ended)
unfolding close_pool
ended_reached =
    next
      (next
        (next (next (next served_once_reached (inner (flag refl))) (inner (shut (pos 1) refl)))
          (outer (accept 0 silent_socket refl)))
        (inner (leave 0 refl refl)))
      (inner (join refl (refl, (refl, tt)) refl))

hermes_shutdown-ends_example :
    All (λ w. w ≡ idle) ended.workers
    × (waiting list_pool ended ≡ [])
    × (length ended.closed + ended.lost ≡ length ended.accepted)
hermes_shutdown-ends_example =
    hermes_shutdown-ends list_pool (pos 7) (pos 0) (pos 8080) no_ops 2 one_manager ended
      one_manager_starts ended_reached refl

run_handler-handle_endpoint_example :
    run_handler 2 noon
      (some (record { endpoint = endpoint_init silent_socket no_ops; is_locked = false }))
    ≡ (handle_endpoint 2 noon (endpoint_init silent_socket no_ops) >>= λ fd. fault)
run_handler-handle_endpoint_example =
    run_handler-handle_endpoint 2 noon (endpoint_init silent_socket no_ops)

-- Three bytes, which end inside the second chunk.
recv_all-Fills_example :
    (r : RecvAll) × (recv_all (codes "ab" ∷ codes "cd" ∷ []) (pos 3) ≡ ok r)
    × Fills 3 (codes "abcd") r
recv_all-Fills_example =
    recv_all-Fills 2 (codes "ab" ∷ codes "cd" ∷ []) (cons-ne-nil _ _, (cons-ne-nil _ _, tt))
