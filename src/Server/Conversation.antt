-- ===== src/Server/Conversation.antt =====
-- A client of src/hms/hermes.c asks a server for a sign of life: its call to send, the thread of
-- the server, and its call to receive.
use hermes_c.Msg.{Msg}
use hermes_c.Socket.{Socket}
