-- ===== src/Threads/Local.antt =====
-- What can be said of each task, thread and closed connection of src/hms/hermes.c on its own, and
-- what a step asks of it.
use hermes_c.CText.{Bytes}
use hermes_c.Endpoint.{Endpoint, Ops, endpoint_destroy}
use hermes_c.Manager.{Task, endpoint_task, listen_task}
use hermes_c.Prelude.{ℕ, ◌≡◌, true, false, List, ◌∷◌, ℤ}
use hermes_c.Process.{ok, fault}
use hermes_c.Server.{endpoint_init}
use hermes_c.Socket.{Socket}
use hermes_c.Threads.{
  IsTime, Worker, blocked, unlocking, accepting, adding, begin, checking, handling, idle, listening,
  opening, serve_round,
}

-- What is said of a task, a thread and a closed connection, by the connections that were accepted,
-- and what a fault would mean; `ops` are the operations of the user.
pub record Local (ops : Ops) : Type 1 where
  pub OfTask : List Socket → Task → Type 0
  pub OfWorker : List Socket → Worker → Type 0
  pub OfClosed : List Socket → Socket → Type 0
  pub Fault : Type 0
  pub of_listen : (fds : List Socket) → OfTask fds listen_task
  pub of_idle : (fds : List Socket) → OfWorker fds idle
  pub of_unlocking : (fds : List Socket) → OfWorker fds unlocking
  pub of_block :
      (fds : List Socket) (e : Endpoint) (status : ℤ)
      → OfWorker fds (handling e status)
      → OfWorker fds (blocked e status)
  pub of_wake :
      (fds : List Socket) (e : Endpoint) (status : ℤ)
      → OfWorker fds (blocked e status)
      → OfWorker fds (handling e status)
  pub of_opening : (fds : List Socket) (n : ℕ) → OfWorker fds (listening (opening n))
  pub of_accepting : (fds : List Socket) → OfWorker fds (listening accepting)
  pub of_checking :
      (fds : List Socket) (fd : Socket) → OfWorker (fd ∷ fds) (listening (checking fd))
  pub of_init :
      (fds : List Socket) (fd : Socket)
      → OfWorker fds (listening (checking fd))
      → OfWorker fds (listening (adding (endpoint_init fd ops)))
  pub of_add :
      (fds : List Socket) (e : Endpoint)
      → OfWorker fds (listening (adding e))
      → OfTask fds (endpoint_task e)
  pub of_begin : (fds : List Socket) (t : Task) → OfTask fds t → OfWorker fds (begin t)
  pub of_round :
      (fds : List Socket) (now : Bytes) (e : Endpoint) (status rc : ℤ) (s : Socket)
      → IsTime now
      → OfWorker fds (handling e status)
      → serve_round now e.ops status e.socket ≡ ok (true, rc, s)
      → OfWorker fds (handling (record e { socket = s }) rc)
  pub of_end :
      (fds : List Socket) (now : Bytes) (e : Endpoint) (status rc : ℤ) (s : Socket)
      → IsTime now
      → OfWorker fds (handling e status)
      → serve_round now e.ops status e.socket ≡ ok (false, rc, s)
      → OfClosed fds (endpoint_destroy (record e { socket = s }))
  pub of_fault :
      (fds : List Socket) (now : Bytes) (e : Endpoint) (status : ℤ)
      → IsTime now
      → OfWorker fds (handling e status)
      → serve_round now e.ops status e.socket ≡ fault
      → Fault
  pub task_later : (fds : List Socket) (fd : Socket) (t : Task) → OfTask fds t → OfTask (fd ∷ fds) t
  pub worker_later :
      (fds : List Socket) (fd : Socket) (w : Worker) → OfWorker fds w → OfWorker (fd ∷ fds) w
  pub closed_later : (fds : List Socket) (fd c : Socket) → OfClosed fds c → OfClosed (fd ∷ fds) c
