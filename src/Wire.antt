-- ===== src/Wire.antt =====
-- The messages that src/hms/hms_msg.c prints and src/hms/hms_parser.c reads back: what their texts
-- may hold.
pub mod Abort
pub mod Built
pub mod Fields
pub mod Header
pub mod Lines
pub mod Numbers
pub mod Read
pub mod RoundTrip
pub mod Scan
pub mod Stored
use hermes_c.CText.{Bytes}
use hermes_c.Msg.Print.Laws.{words}
use hermes_c.Msg.{UHeader, NHeader}
use hermes_c.Parser.{str_strip}
use hermes_c.Prelude.{
  ℕ, ◌≡◌, ◌≢◌, Bool, true, false, not, ◌&&◌, ◌||◌, List, [], ◌∷◌, ◌++◌, ◌==◌, if◌then◌else◌, All,
}

-- A byte that does not end a line or a C string, and that the reader does not change.
abbrev pub is_line_byte : ℕ → Bool
is_line_byte c = not (c == 0 || c == b'\n' || c == b'\r')

abbrev pub is_word_byte : ℕ → Bool
is_word_byte c = is_line_byte c && not (c == b' ' || c == b'\t')

abbrev pub LineText : Bytes → Type 0
LineText = All (λ c. is_line_byte c ≡ true)

-- The flag `dot_seen` behind some bytes of one line.
abbrev pub dot_after : Bool → Bytes → Bool
dot_after seen [] = seen
dot_after seen (c ∷ s) = dot_after (if c == b'.' then true else if c == b' ' then seen else false) s

-- A line that does not end the header: its last byte but for spaces is no period.
abbrev pub IsQuiet : Bytes → Type 0
IsQuiet l = LineText l × (dot_after false l ≡ false)

abbrev pub IsWord : Bytes → Type 0
IsWord w = (w ≢ []) × All (λ c. is_word_byte c ≡ true) w

abbrev pub line_of : NHeader → Bytes
line_of h = h.key ++ (b':' ∷ h.val)

-- A key has no colon, and neither it nor its value has space at an end.
pub record IsField (h : NHeader) : Type 0 where
  pub no_colon : All (λ c. (c == b':') ≡ false) h.key
  pub key_stripped : str_strip h.key ≡ h.key
  pub val_stripped : str_strip h.val ≡ h.val
  pub quiet : IsQuiet (line_of h)

-- The lines of a header, each with its newline.
abbrev pub unlines : List Bytes → Bytes
unlines [] = []
unlines (l ∷ ls) = l ++ (b'\n' ∷ unlines ls)
