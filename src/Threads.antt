-- ===== src/Threads.antt =====
-- The threads of a server of src/hms/hermes.c and how they interleave: the listener, the threads of
-- the pool that handle connections, and the program that calls `hermes_shutdown`. A step is what
-- one thread does between two accesses to what it shares with others; any thread may go next.
pub mod Accounts
pub mod Behaved
pub mod Blocked
pub mod Each
pub mod Isolation
pub mod Ledger
pub mod Liveness
pub mod Local
pub mod Progress
pub mod Replies
pub mod Rounds
pub mod Sequential
pub mod Shutdown
pub mod Start
use hermes_c.CText.{Bytes}
use hermes_c.Endpoint.{Endpoint, Ops, endpoint_destroy, endpoint_recv_msg}
use hermes_c.Manager.{
  Attempt, Manager, Task, ThreadPool, add_work, attempt_works, endpoint_task, listen_task,
  next_sleep,
}
use hermes_c.Msg.{Msg}
use hermes_c.Parser.{succeeded}
use hermes_c.Prelude.{
  ℕ, suc, ◌+◌, ◌-◌, ◌≡◌, ◌⊎◌, ◌&&◌, Bool, true, false, Option, none, some, List, [], ◌∷◌, All,
  get_elem?, length, set, total, ◌<◌, if◌then◌else◌, ℤ, pos,
}
use hermes_c.Process.{Run, ok, fault, ◌>>=◌}
use hermes_c.Server.{endpoint_init, serve_msg}
use hermes_c.Socket.{Socket}

-- Where the listener stands in `_hms_listen`.
pub data Listener : Type 0 where
  opening : (sleep_time : ℕ) → Listener  -- the label `retry_listen`
  accepting : Listener  -- the head of the loop
  checking : (new_fd : Socket) → Listener  -- before the test of `manager->shutdown`
  adding : Endpoint → Listener  -- before `tpool_add_work`

-- What a thread of the pool does. `status` is `handler_status` at the head of the loop.
pub data Worker : Type 0 where
  idle : Worker
  listening : Listener → Worker
  handling : (endpoint : Endpoint) (status : ℤ) → Worker
  blocked : (endpoint : Endpoint) (status : ℤ) → Worker  -- in a `read`, as the peer is silent
  unlocking : Worker  -- behind `hms_endpoint_destroy`, before the unlock of the freed mutex

-- The program that owns the manager, and where it stands in `hermes_shutdown`.
pub data Owner : Type 0 where
  running : Owner
  flagged : Owner  -- behind the assignment to `manager->shutdown`
  joining : Owner  -- in `tpool_destroy`
  stopped : Owner  -- behind `close(manager->server_socket)`

-- `accepted`, `closed` and `lost` are a record of what happened: the connections as they were
-- accepted, those that were closed, and how many will never be.
pub record System (Pool : Type 0) : Type 0 where
  pub manager : Manager Pool
  pub workers : List Worker
  pub owner : Owner
  pub accepted : List Socket
  pub closed : List Socket
  pub lost : ℕ

-- What `asctime_r` may write: it takes a buffer of 26 bytes.
abbrev pub IsTime : Bytes → Type 0
IsTime now = length now < 26

-- A round of the loop behind `hms_endpoint_recv_msg`: whether there is another one.
unfoldable pub round_after_recv :
    Bytes → Ops → ℤ → ℤ × Option Msg × Socket → Run (Bool × ℤ × Socket)
round_after_recv now ops status (rc, none, socket) =
    if succeeded rc then fault else ok (false, status, socket)
round_after_recv now ops status (rc, some msg, socket) =
    if succeeded rc
    then serve_msg now ops status socket msg >>= (λ (r, s). ok (succeeded r, r, s))
    else ok (false, status, socket)

unfoldable pub serve_round : Bytes → Ops → ℤ → Socket → Run (Bool × ℤ × Socket)
serve_round now ops status socket = endpoint_recv_msg socket >>= round_after_recv now ops status

-- What a thread is behind a task that it takes.
abbrev pub begin : Task → Worker
begin listen_task = listening (opening 0)
begin (endpoint_task endpoint) = handling endpoint (pos 0)

-- The connections among the tasks that wait.
abbrev pub is_connection : Task → ℕ
is_connection listen_task = 0
is_connection (endpoint_task _) = 1

abbrev pub connections : List Task → ℕ
connections = total is_connection

module _ {Pool : Type 0} where
  -- A server behind `hermes_init`, with the threads of its pool.
  abbrev pub started : Manager Pool → List Worker → System Pool
  started m workers = record {
    manager = m;
    workers = workers;
    owner = running;
    accepted = [];
    closed = [];
    lost = 0;
  }

  abbrev pub set_worker : System Pool → ℕ → Worker → System Pool
  set_worker s i w = record s { workers = set s.workers i w }

  abbrev pub set_pool : System Pool → Pool → System Pool
  set_pool s p = record s { manager = record s.manager { pool = p } }

  -- Behind a round: the next one, or the end of the loop, behind which the endpoint is destroyed
  -- and freed.
  unfoldable pub after_round : System Pool → ℕ → Endpoint → Bool × ℤ × Socket → System Pool
  after_round s i e (true, status, fd) = set_worker s i (handling (record e { socket = fd }) status)
  after_round s i e (false, status, fd) = record (set_worker s i unlocking) {
    closed = endpoint_destroy (record e { socket = fd }) ∷ s.closed;
  }

  -- Behind an attempt to listen. The socket that was bound is stored before `listen`.
  unfoldable pub after_open : System Pool → ℕ → ℕ → Attempt → System Pool
  after_open s i sleep_time a =
      let bound = a.has_socket && a.sets_reuse && a.binds in
      record s {
        manager = record s.manager {
          server_socket = if bound then a.sockfd else s.manager.server_socket;
        };
        workers =
            set s.workers i
              (listening (if attempt_works a then accepting else opening (next_sleep sleep_time)));
      }

module _ {Pool : Type 0} (tpool : ThreadPool Pool) where
  -- `tpool_destroy`, up to where it waits for the threads. What it drops from the queue is lost.
  unfoldable pub close_pool : System Pool → ℤ → System Pool
  close_pool s force =
      let before = tpool.queued s.manager.pool in
      let p = tpool.tpool_destroy s.manager.pool force in
      record (set_pool s p) {
        owner = joining;
        lost = s.lost + (connections before - connections (tpool.queued p));
      }

module _ {Pool : Type 0} (tpool : ThreadPool Pool) where
  -- `hms_assert_not_equals(-1, tpool_add_work(...))` of the listener.
  unfoldable pub hand_over : System Pool → ℕ → Endpoint → Run (System Pool)
  hand_over s i e = add_work tpool s.manager.pool (endpoint_task e) >>= λ p.
      ok (set_worker (set_pool s p) i (listening accepting))

  -- What a thread of the pool does with connections. While its peer is silent, a thread may stay in
  -- `read` for any time, or for ever; the round is a step behind that, with the text of the clock
  -- at that time. The unlock of the mutex in the freed endpoint is undefined: anything may happen
  -- there, or it may pass unnoticed.
  pub data Work (s : System Pool) : Run (System Pool) → Type 0 where
    take :
        (i : ℕ) {t : Task} {p : Pool}
        → get_elem? s.workers i ≡ some idle
        → tpool.tpool_take s.manager.pool ≡ some (t, p)
        → Work s (ok (set_worker (set_pool s p) i (begin t)))
    serve :
        (i : ℕ) (now : Bytes) {e : Endpoint} {status : ℤ}
        → IsTime now
        → get_elem? s.workers i ≡ some (handling e status)
        → Work s (serve_round now e.ops status e.socket >>= λ r. ok (after_round s i e r))
    block :
        (i : ℕ) {e : Endpoint} {status : ℤ}
        → get_elem? s.workers i ≡ some (handling e status)
        → Work s (ok (set_worker s i (blocked e status)))
    wake :
        (i : ℕ) {e : Endpoint} {status : ℤ}
        → get_elem? s.workers i ≡ some (blocked e status)
        → Work s (ok (set_worker s i (handling e status)))
    unlock_fails : (i : ℕ) → get_elem? s.workers i ≡ some unlocking → Work s fault
    unlock_passes :
        (i : ℕ) → get_elem? s.workers i ≡ some unlocking → Work s (ok (set_worker s i idle))

  -- What happens without a new connection, apart from that. The listener tests `manager->shutdown`
  -- under no lock; where `hermes_shutdown` sets it at the same time, that is a data race, and
  -- undefined.
  pub data Inner (s : System Pool) : Run (System Pool) → Type 0 where
    work : {r : Run (System Pool)} → Work s r → Inner s r
    attempt :
        (i sleep_time : ℕ) (a : Attempt)
        → get_elem? s.workers i ≡ some (listening (opening sleep_time))
        → Inner s (ok (after_open s i sleep_time a))
    leave :
        (i : ℕ) {fd : Socket}
        → get_elem? s.workers i ≡ some (listening (checking fd))
        → s.manager.shutdown ≡ true
        → Inner s (ok (record (set_worker s i idle) { lost = suc s.lost }))
    init :
        (i : ℕ) {fd : Socket}
        → get_elem? s.workers i ≡ some (listening (checking fd))
        → s.manager.shutdown ≡ false
        → Inner s (ok (set_worker s i (listening (adding (endpoint_init fd s.manager.ops)))))
    add :
        (i : ℕ) {e : Endpoint}
        → get_elem? s.workers i ≡ some (listening (adding e))
        → Inner s (hand_over s i e)
    race :
        (i : ℕ) {fd : Socket}
        → get_elem? s.workers i ≡ some (listening (checking fd))
        → s.owner ≡ running
        → Inner s fault
    flag :
        s.owner ≡ running
        → Inner s
            (ok (record s { manager = record s.manager { shutdown = true }; owner = flagged }))
    shut : (force : ℤ) → s.owner ≡ flagged → Inner s (ok (close_pool tpool s force))
    join :
        s.owner ≡ joining
        → All (λ w. w ≡ idle) s.workers
        → tpool.queued s.manager.pool ≡ []
        → Inner s (ok (record s { owner = stopped }))

  -- What `accept` does: a connection, or -1.
  pub data Outer (s : System Pool) : Run (System Pool) → Type 0 where
    accept :
        (i : ℕ) (fd : Socket)
        → get_elem? s.workers i ≡ some (listening accepting)
        → Outer s
            (ok (record (set_worker s i (listening (checking fd))) { accepted = fd ∷ s.accepted }))
    fail :
        (i : ℕ)
        → get_elem? s.workers i ≡ some (listening accepting)
        → Outer s (ok (set_worker s i idle))

  -- Where a step is undefined: at the unlock of a freed mutex, and at the test of the flag while
  -- the program may set it.
  abbrev pub Undefined : System Pool → Type 0
  Undefined s =
      ((i : ℕ) × (get_elem? s.workers i ≡ some unlocking))
      ⊎ ((s.owner ≡ running)
          × (i : ℕ) × (fd : Socket) × (get_elem? s.workers i ≡ some (listening (checking fd))))

  pub data Step (s : System Pool) (r : Run (System Pool)) : Type 0 where
    inner : Inner s r → Step s r
    outer : Outer s r → Step s r

  -- What may happen from a start on, in any order.
  pub data Reach (start : System Pool) : Run (System Pool) → Type 0 where
    here : Reach start (ok start)
    next : {s : System Pool} {r : Run (System Pool)} → Reach start (ok s) → Step s r → Reach start r
