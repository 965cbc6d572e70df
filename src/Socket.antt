-- ===== src/Socket.antt =====
-- The socket as the code sees it. What a peer sends arrives in chunks: one call of `read(fd, p, n)`
-- takes at most `n` bytes of the first one. An empty chunk is a call that returns 0 or -1, and with
-- no chunk left every call does.
use hermes_c.CText.{Bytes}
use hermes_c.Prelude.{
  Bool, ℕ, ◌≢◌, Option, List, [], ◌∷◌, ◌++◌, length, take, drop, All, leb, if◌then◌else◌,
}

abbrev pub Input : Type 0
Input = List Bytes

unfoldable pub read : ℕ → Input → Bytes × Input
read n [] = ([], [])
read n (c ∷ cs) = if leb (length c) n then (c, cs) else (take n c, drop n c ∷ cs)

-- All bytes that arrive.
abbrev pub stream : Input → Bytes
stream [] = []
stream (c ∷ cs) = c ++ stream cs

-- No call fails before the last byte.
abbrev pub NoErrors : Input → Type 0
NoErrors = All (λ c. c ≢ [])

-- What successive calls of `send` do: `none` fails with -1, and `some k` takes at most `k` bytes.
-- With no answer left every call fails, as on a connection that the peer has reset.
abbrev pub Answers : Type 0
Answers = List (Option ℕ)

-- A connected socket: what it will receive, how it takes bytes, and what it has taken.
pub record Socket : Type 0 where
  pub incoming : Input
  pub answers : Answers
  pub outgoing : Bytes
  pub is_open : Bool
