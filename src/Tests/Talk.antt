-- ===== src/Tests/Talk.antt =====
-- A client that sends a PING to a server with two threads.
use hermes_c.CText.{codes, c_str, same_nocase, tokens}
use hermes_c.Endpoint.{
  endpoint_destroy, Endpoint, endpoint_recv_msg, endpoint_send_msg, print_into, send_body,
  send_erred, send_header,
}
use hermes_c.Parser.{hdr_loop, hdr_step, parse_header, parse_message, parse_verb_line, read_header}
use hermes_c.Msg.{
  create, destroy, destroy_headers, destroy_named_headers, find_named, get_verb, set_verb,
}
use hermes_c.Msg.Print.{get_header_size, print_all}
use hermes_c.Msg.Body.{get_body_size}
use hermes_c.Msg.{Msg}
use hermes_c.Server.Session.{Request}
use hermes_c.Manager.{Task, add_work}
use hermes_c.Prelude.{
  refl, All, Any, List, [], ◌∷◌, false, true, arith, pos, cons-ne-nil, some, to_int,
}
use hermes_c.Process.{ok}
use hermes_c.Server.{
  endpoint_init, after_accepts, after_validate, default_accepts, default_handle, default_reply,
  default_validate, serve_msg,
}
use hermes_c.Server.Session.{no_ops}
use hermes_c.Socket.{Socket, read}
use hermes_c.Tests.Interleavings.{first, one_manager, one_manager_starts, works}
use hermes_c.Tests.Samples.{list_pool, ping_msg, three_requests-CanRead}
use hermes_c.Threads.Replies.{Brings, IsAnswered, hermes_init-IsAnswered}
use hermes_c.Threads.{
  unlocking, Reach, System, Work, accept, accepting, add, after_open, after_round, attempt,
  hand_over, handling, here, init, inner, listening, next, outer, running, serve, serve_round, take,
  work, round_after_recv,
}

abbrev ping_socket : Socket
ping_socket = record {
  incoming = codes "PI" ∷ codes "NG\n.\n" ∷ [];
  answers = some 7 ∷ some 7 ∷ some 7 ∷ some 7 ∷ some 7 ∷ some 7 ∷ some 7 ∷ [];
  outgoing = [];
  is_open = true;
}

-- Behind the reply, and behind the end.
abbrev ponged : Socket
ponged = record ping_socket {
  incoming = [];
  answers = some 7 ∷ some 7 ∷ some 7 ∷ some 7 ∷ some 7 ∷ some 7 ∷ [];
  outgoing = codes "PONG\n.\n";
}

abbrev ping_endpoint : Endpoint
ping_endpoint = endpoint_init ping_socket no_ops

abbrev at_ping : System (List Task)
at_ping = record {
  manager = record one_manager { server_socket = pos 3; pool = [] };
  workers = listening accepting ∷ handling ping_endpoint (pos 0) ∷ [];
  owner = running;
  accepted = ping_socket ∷ [];
  closed = [];
  lost = 0;
}

abbrev behind_ping : System (List Task)
behind_ping = record at_ping {
  workers = listening accepting ∷ handling (record ping_endpoint { socket = ponged }) (pos 0) ∷ [];
}

at_ping_reached : Reach list_pool first (ok at_ping)
unfolding after_open hand_over add_work
at_ping_reached =
    next
      (next
        (next
          (next
            (next (next here (inner (work (take 0 refl refl)))) (inner (attempt 0 0 works refl)))
            (outer (accept 0 ping_socket refl)))
          (inner (init 0 refl refl)))
        (inner (add 0 refl)))
      (inner (work (take 1 refl refl)))

ping_served : Work list_pool at_ping (ok behind_ping)
unfolding after_round serve_round endpoint_recv_msg read_header hdr_loop read endpoint_init hdr_step
    parse_message parse_header tokens c_str parse_verb_line round_after_recv serve_msg
    default_validate after_validate default_accepts after_accepts default_handle default_reply
    same_nocase endpoint_send_msg send_header send_body get_verb set_verb get_header_size to_int
    create print_into print_all send_erred get_body_size find_named destroy destroy_headers
    destroy_named_headers
ping_served = serve 1 (codes "now") (omega arith) refl

-- The client sends no more.
abbrev goodbye : System (List Task)
goodbye = record at_ping {
  workers = listening accepting ∷ unlocking ∷ [];
  closed = record ponged { is_open = false } ∷ [];
}

goodbye_closes : Work list_pool behind_ping (ok goodbye)
unfolding after_round serve_round endpoint_recv_msg read_header hdr_loop read endpoint_init
    round_after_recv endpoint_destroy
goodbye_closes = serve 1 (codes "now") (omega arith) refl

ping_socket-Brings : Brings ping_socket
unfolding same_nocase
ping_socket-Brings = record {
  sent = record { msg = ping_msg; verb = codes "PING" } ∷ [];
  can_read = (three_requests-CanRead.0, three_requests-CanRead.1, tt);
  fine = (cons-ne-nil _ _, (cons-ne-nil _ _, tt));
  spells = refl;
  enough = λ clock short. ((tt, (tt, (tt, (tt, (tt, (tt, (tt, tt))))))), omega arith);
}

hermes_init-IsAnswered_example : All (λ c. Any (IsAnswered c) goodbye.accepted) goodbye.closed
hermes_init-IsAnswered_example =
    hermes_init-IsAnswered list_pool (pos 7) (pos 0) (pos 8080) 2 one_manager goodbye
      one_manager_starts
      (next (next at_ping_reached (inner (work ping_served))) (inner (work goodbye_closes)))
      (ping_socket-Brings, tt)

-- The client at the other end of the connection.
abbrev ping_client : Socket
ping_client = record ping_socket { incoming = [] }

abbrev ping_request : Request
ping_request = record { msg = ping_msg; verb = codes "PING" }
