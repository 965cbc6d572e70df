-- ===== src/CopyClient/File.antt =====
-- A whole file, from the client of src/tests/copy_client.c to the server of
-- src/tests/copy_server.c.
use hermes_c.CText.{Bytes}
use hermes_c.CopyClient.Chunk.{IsName}
use hermes_c.CopyServer.{Disk, Write}
use hermes_c.Msg.{Msg}
use hermes_c.Parser.Chunks.{Follows}
use hermes_c.CopyServer.Writes.{Writes, patches}
use hermes_c.Prelude.{
  All, ℕ, ◌+◌, ◌<◌, ◌≤◌, ◌≡◌, true, List, ◌++◌, pos, length, take, drop, int_min_abs,
}
use hermes_c.Socket.{Input, Socket}

-- A disk that opens the file and writes everything.
pub record IsGood (disk : Disk) (dst : Bytes) : Type 0 where
  pub opens : disk.opens dst ≡ true
  pub completes : (w : Write) → disk.pwrite w ≡ pos (length w.bytes)

-- What the server makes of the texts of the chunks from `offset` on: writes to one file, behind
-- which it has the bytes `now`.
record Arrives (disk : Disk) (dst : Bytes) (inp : Input) (more old now : Bytes) : Type 0 where
  ws : List Write
  later : Input
  served : Writes disk inp ws later
  left : Follows later more
  one_file : All (λ w. w.filename ≡ dst) ws
  becomes : patches old ws ≡ now

module _ (disk : Disk) (file dst : Bytes) (size : ℕ) (name : IsName dst) (short : length dst ≤ 900)
    (p : 0 < size) (small : length file + 1 < int_min_abs) (good : IsGood disk dst) where
  -- The file behind the writes up to `k`.
  abbrev up_to : Bytes → ℕ → Bytes
  up_to old k = take k file ++ drop k old
