-- ===== src/Tests/Connections.antt =====
-- The theorems on connections and the server at concrete ones.
use hermes_c.CText.Number.{atoi}
use hermes_c.CText.{codes, same_nocase}
use hermes_c.Endpoint.Delivery.{
  Enough, SendReport, ClientReport, connector_send_msg-ClientReport, endpoint_send_msg-SendReport,
}
use hermes_c.Endpoint.Exchange.{Received, connector_recv_msg-endpoint_send_msg}
use hermes_c.Endpoint.{
  after_get_body, connector_recv_msg, connector_send_msg, endpoint_send_msg, print_into, send_body,
  send_erred, send_header,
}
use hermes_c.Manager.{accept_failed, accepted, Attempt, Accept}
use hermes_c.Msg.Body.{get_body, get_body_size}
use hermes_c.Msg.Print.{get_header_size, print_all}
use hermes_c.Msg.{Msg, find_named}
use hermes_c.Prelude.{
  ◌≡◌, refl, true, false, none, some, List, [], ◌∷◌, ◌++◌, arith, cons-ne-nil, length, ℤ, pos,
  to_int,
}
use hermes_c.Process.{ok, rc_ok}
use hermes_c.Server.Default.{Replies, default_handle-Replies, reply_text}
use hermes_c.Server.Session.{handle_endpoint-replies, no_ops, replies}
use hermes_c.Server.Loop.{Closes, handle_endpoint-Closes}
use hermes_c.Server.{default_handle, endpoint_init, handle_endpoint}
use hermes_c.Socket.{Socket}
use hermes_c.Tests.Samples.{
  noon, go_text, go_input-NoErrors, session_socket, ping_msg, ping_msg-IsComplete, three_requests,
  three_requests-CanRead, broken_socket, go_msg, go_msg-IsComplete, go_msg-IsSendable, good_socket,
}

-- What the socket is behind the message.
abbrev sent_socket : Socket
sent_socket = record good_socket { answers = []; outgoing = go_text ++ codes "x" }

send_go : endpoint_send_msg good_socket go_msg ≡ ok (rc_ok, sent_socket)
unfolding endpoint_send_msg send_header get_header_size to_int print_into print_all send_erred
    send_body get_body_size find_named same_nocase atoi get_body after_get_body
send_go = refl

connector_recv_msg-endpoint_send_msg_example :
    (d : Socket) × (r : Msg) × (connector_recv_msg good_socket ≡ ok (rc_ok, some r, d))
    × Received good_socket go_msg (codes "PING") d r
connector_recv_msg-endpoint_send_msg_example =
    connector_recv_msg-endpoint_send_msg good_socket sent_socket good_socket go_msg (codes "GO")
      (go_text ++ codes "x") (codes "PING") go_msg-IsSendable (omega arith) send_go refl
      go_input-NoErrors refl

handle_endpoint-Closes_example :
    Closes (handle_endpoint 100 noon (endpoint_init good_socket no_ops))
handle_endpoint-Closes_example =
    handle_endpoint-Closes 100 noon good_socket no_ops (λ n. omega arith) (λ n. tt) (λ n. tt)
      (λ n. tt) (omega arith)

endpoint_send_msg-SendReport_example :
    (r : ℤ × Socket) × (endpoint_send_msg broken_socket go_msg ≡ ok r)
    × SendReport broken_socket (go_text ++ codes "x") r
endpoint_send_msg-SendReport_example =
    endpoint_send_msg-SendReport broken_socket go_msg (codes "GO") refl go_msg-IsComplete
      (omega arith)

connector_send_msg-ClientReport_example :
    (r : ℤ × Socket) × (connector_send_msg session_socket ping_msg ≡ ok r)
    × ClientReport session_socket (codes "PING\n.\n") none r
connector_send_msg-ClientReport_example =
    connector_send_msg-ClientReport session_socket ping_msg (codes "PING") refl ping_msg-IsComplete
      (omega arith)

default_handle-Replies_example :
    Replies good_socket go_msg
      (reply_text (codes "now") go_msg.verb)
      (default_handle (codes "now") good_socket go_msg)
default_handle-Replies_example =
    default_handle-Replies (codes "now") good_socket go_msg (omega arith)

-- The first attempt to listen fails, and the second one works; two connections come in.
abbrev two_attempts : List Attempt
two_attempts =
    record { sockfd = pos 3; has_socket = true; sets_reuse = true; binds = false; listens = true }
    ∷ record { sockfd = pos 3; has_socket = true; sets_reuse = true; binds = true; listens = true }
    ∷ []

abbrev two_connections : List Accept
two_connections = accepted false good_socket ∷ accepted false broken_socket ∷ accept_failed ∷ []

three_requests-Enough : Enough (length (replies noon three_requests)) session_socket
unfolding same_nocase
three_requests-Enough = ((tt, (tt, (tt, (tt, (tt, (tt, (tt, tt))))))), omega arith)

handle_endpoint-replies_example :
    (last : Socket) × (handle_endpoint 4 noon (endpoint_init session_socket no_ops) ≡ ok last)
    × (last.outgoing ≡ replies noon three_requests)
    × (last.is_open ≡ false)
handle_endpoint-replies_example =
    handle_endpoint-replies 4 three_requests noon session_socket (λ n. omega arith)
      three_requests-CanRead (cons-ne-nil _ _, (cons-ne-nil _ _, tt)) refl three_requests-Enough
      (omega arith)
