-- ===== src/Lib.antt =====
-- Verification of hermes_c, a messaging library in C for small servers (src/hms, src/include).
--
-- The program. A message (src/hms/hms_msg.c) has a verb, a chain of unnamed headers, a chain of
-- named headers and a body of `content_len` bytes, whose length is also in the header
-- Content-Length. The parser (src/hms/hms_parser.c) reads one from a socket: it reads the header
-- byte by byte to a line that ends with a period, cuts it into lines and words, and then reads
-- the body. A server (src/hms/hermes.c) listens in a thread of a pool, hands each accepted
-- connection to the pool, and a thread reads its messages in a loop, asks the user's operations
-- or the default ones to handle each, and sends replies. A client uses a connector to send and
-- receive. A failed assertion (src/hms/hms_util.c) ends the process.
--
-- The modules.
-- - Prelude: names of the libraries, Boolean tests, lists over the native numbers, and the type
--   `int`.
-- - CText: strings as lists of bytes before the NUL, and what the code uses of the C library:
--   `strcasecmp` (same_nocase), `strtok_r` (tokens), `strchr` (split_at), `isspace`, `strtol`,
--   `atoi` and `sprintf("%d")`.
-- - Process: a run that returns, ends the process (died) or has undefined behaviour (fault);
--   src/hms/hms_util.c.
-- - Msg: the message and its operations, one for each function `hms_msg_*`; Msg.Body has those on
--   the body, Msg.Print the size and the printer. Msg.Valid is the invariant, Msg.Named the map
--   of the named headers, Msg.Headers the getters after each change, and Msg.Reach what a program
--   can make by calls.
-- - Socket: what arrives on a socket as a list of chunks, which `read` cuts further, and how
--   `send` takes bytes.
-- - Parser: `hms_msg_parse` and its helpers, named as those without `__hms_`. Its children prove
--   that chunks do not matter (Chunks, Stream, Same), what every input leads to (Safe, Outcome)
--   and how much is taken (Consumes).
-- - Wire: which messages can go on the wire, and that the parser reads back what is printed.
-- - Endpoint: `hms_endpoint_*` and `hms_connector_*`, which share their code here where they
--   share it in the source.
-- - Server: the default operations and the loop of `_hms_handle_endpoint`; Server.Session
--   compares a whole connection with a list of requests and their replies, and
--   Server.Conversation puts a client at the other end. Manager: `hermes_init`, `hermes_shutdown`
--   and `_hms_listen`, as one thread runs them.
-- - Lifetime: `_hms_handle_endpoint` with its lock, and the memory of the endpoint.
-- - Threads: the listener, the threads that handle connections and the caller of
--   `hermes_shutdown` as a step relation, in which any of them may go next. Work has the steps on
--   connections, Inner those that need no new connection, Outer the return of `accept`. A thread
--   whose peer is silent may wait in `read` for any time (blocked), and one that has freed its
--   endpoint still has to unlock the mutex in it (unlocking), which is undefined and may pass
--   unnoticed. Its children: Start is the system behind `hermes_init`; Accounts and Ledger count
--   the connections; Local and Each are an invariant of single tasks, threads and connections,
--   which Behaved (where a step is undefined) and Isolation (each connection is as if handled
--   alone) fill in; Rounds and Sequential compare the rounds of a thread with the loop in Server;
--   Replies is about what clients get; Progress and Liveness about how far the threads get;
--   Shutdown and Blocked are about `hermes_shutdown`.
-- - CopyServer: the operations of the example src/tests/copy_server.c, and what they make of the
--   requests that a server reads. CopyClient: the example src/tests/copy_client.c, and how a file
--   that it sends gets to that server.
-- - Tests: runs at concrete inputs.
--
-- How the code is modelled. A function that changes an object takes it and returns it; a chain of
-- the list macros is a list in chain order. Arguments are not NULL and allocations succeed,
-- except those of a negative or overflowing size, so the assertions on pointers hold; the other
-- assertions are in the model. An `int` that a peer can make as large as it likes is in the model
-- with its range: the offset and the Content-Length that are read, the size of a header, which is
-- reduced to 32 bits at the end of the sum, and the size of a buffer, where an addition of 1 to
-- the largest `int` wraps around, as the usual compilers have it, to a negative one, and the
-- allocation fails. The counters of the headers and the lengths of single strings stay below
-- 2^31, as far as that takes 2^31 headers, or 2 GB in one string, in memory; they are not
-- reduced. A read or write outside a buffer is a fault, and so is the buffer of a header that
-- could not be allocated.
--
-- Loops and fuel. The header loop runs on the room that is left in its buffer. The body loop has
-- the number of missing bytes and one more as fuel: each round reads a byte or ends it. The loop
-- of a connection has fuel that its theorem bounds by the bytes that arrive: each message takes
-- three. `__send_all` runs on the list of the answers of `send`; with no answer left, `send`
-- fails. The loop of the copy client has the bytes of the file and one more: each round sends a
-- byte or ends it.
--
-- The user's operations are functions of the text of the clock, the socket and the message. In
-- CopyServer the system calls on files are what they return (Disk), and a call of `pwrite` is
-- part of the result. The thread pool is a record of operations with laws (Manager.ThreadPool): a
-- task is refused with -1 or is queued last, a free thread takes the oldest one, and a pool that
-- is destroyed drops its tasks or lets them finish; `tpool_destroy` returns when no thread is
-- busy and no task waits. In Threads a step is what a thread does between two accesses to what it
-- shares: a round of the loop of a connection uses that connection alone, so it is one step. The
-- listener tests `manager->shutdown` under no lock; where the program may set it at the same
-- time, that is a data race and a step of its own, which is undefined, next to those in which the
-- test comes first or last. Likewise the unlock of the mutex in a freed endpoint has a step that
-- is undefined and one that passes; what is said of the threads behind it is said of the runs in
-- which it passes. The text of the time is given to each step of a thread on its own, and as a
-- sequence (Clock) to the rounds of a connection that Server follows alone.
--
-- Not modelled. The copies of other projects: src/tpool (from a book), src/hashtab (SELinux),
-- src/md5 (GNU C library, compiled out since HERMES_ENABLE_CHECKSUMS is undefined) and
-- src/include/hms_list.h (Linux). The other programs of src/tests. The member `start` of a
-- connection, `manager_lock`, which no other thread takes, signals, and messages on stderr.
mod Prelude
pub mod CText
pub mod CopyClient
pub mod CopyServer
pub mod Endpoint
pub mod Lifetime
pub mod Manager
pub mod Msg
pub mod Parser
pub mod Process
pub mod Server
pub mod Socket
pub mod Threads
pub mod Wire
mod Tests
