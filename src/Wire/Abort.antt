-- ===== src/Wire/Abort.antt =====
-- A header on which src/hms/hms_parser.c ends the process.
use hermes_c.CText.Number.{strtol}
use hermes_c.CText.{Bytes}
use hermes_c.Msg.Print.Laws.{wire}
use hermes_c.Msg.{UHeader, NHeader, content_length, find_named}
use hermes_c.Parser.{read_body, parse_message, parse, cut_at_dot}
use hermes_c.Prelude.{
  int_min_abs, ◌+◌, ◌<◌, ℕ, ◌≤◌, ◌≡◌, ◌∙◌, refl, ap, some, List, ◌++◌, length, pos, negsuc, to_int,
  eq_ℤ, false,
}
use hermes_c.Process.{died}
use hermes_c.Socket.{Input, stream, NoErrors}
use hermes_c.Wire.Fields.{last_length-some, HasLength-some}
use hermes_c.Wire.Header.{IsReadable, header_lines, parse_header-ended, parse-wire}
use hermes_c.Wire.Scan.{ended}
use hermes_c.Wire.{unlines}

module _ (v : Bytes) (us : List UHeader) (ns : List NHeader) (r : IsReadable v us ns) {val : Bytes}
    (header : find_named content_length ns ≡ some val)
    (minus_one : to_int (strtol val) ≡ negsuc 0) where
  negative : eq_ℤ (to_int (strtol val)) (pos 0) ≡ false
  negative = ap (λ n. eq_ℤ n (pos 0)) minus_one

  message_died :
      (rest : Input)
      → parse_message (cut_at_dot (ended (unlines (header_lines v us ns)))) rest ≡ died
  unfolding parse_message read_body
  message_died rest =
      rw (parse_header-ended v us ns r (HasLength-some ns r.distinct header negative))
        (rw (last_length-some ns (pos 0) r.distinct header) (rw minus_one refl))

-- A readable header whose Content-Length is -1 and that fits the buffer, of a size below INT_MAX,
-- ends the process, whatever follows it, when no `read` fails.
pub parse-died :
    (v : Bytes) (us : List UHeader) (ns : List NHeader) (val s : Bytes) (inp : Input) (max : ℕ)
    → IsReadable v us ns
    → find_named content_length ns ≡ some val
    → to_int (strtol val) ≡ negsuc 0
    → NoErrors inp
    → stream inp ≡ wire v us ns ++ s
    → length (wire v us ns) ≤ max
    → max + 1 < int_min_abs
    → parse inp max ≡ died
parse-died v us ns val s inp max r header minus_one fine spells fits small =
    let (rest, _, e) =
      parse-wire v us ns r inp s max (record { fine = fine; spells = spells }) fits small in
    e ∙ message_died v us ns r header minus_one rest
