-- ===== src/Wire/Read.antt =====
-- What `hms_msg_parse` of src/hms/hms_parser.c returns behind a header.
use hermes_c.CText.Number.RoundTrip.{atoi-print_int}
use hermes_c.CText.Number.{atoi, strtol, print_int}
use hermes_c.CText.{Bytes, same_nocase}
use hermes_c.Msg.Body.Laws.{filled, filled-IsValid, filled-content}
use hermes_c.Msg.Headers.{find_named-add_named_header}
use hermes_c.Msg.Named.{add_named_header_lem, find_named-same}
use hermes_c.Msg.Valid.{IsValid}
use hermes_c.Msg.{Msg, UHeader, NHeader, content_length, find_named}
use hermes_c.Parser.Chunks.{Follows}
use hermes_c.Parser.Safe.{AwaitsBody}
use hermes_c.Parser.{parse_message, cut_at_dot}
use hermes_c.Prelude.{
  ◌+◌, ◌<◌, ◌≡◌, ◌∙◌, refl, ap, false, Option, none, some, List, ◌++◌, arith, length, All, pos,
  to_int, int_min_abs, eq_ℤ, if◌then◌else◌,
}
use hermes_c.Process.{ok}
use hermes_c.Socket.{Input}
use hermes_c.Wire.Fields.{
  last_length, last_length-none, last_length-some, HasLength, HasLength-none, HasLength-some,
}
use hermes_c.Wire.Header.{IsReadable, header_lines, header_msg, parse_header-ended}
use hermes_c.Wire.Scan.{ended}
use hermes_c.Wire.{unlines}
use hermes_c.Wire.Built.{
  header_msg-named_headers, header_msg-headers, header_msg-verb, header_msg-AwaitsBody,
}
use hermes_c.Wire.Stored.{read_body-filled}

-- What the parser returns, for a header and a body.
abbrev pub ReadsBack : Bytes → List UHeader → List NHeader → Option Bytes → Msg → Type 0
ReadsBack v us ns c r =
    IsValid r
    × (r.verb ≡ some v)
    × (r.headers ≡ us)
    × (r.content ≡ c)
    × ((k : Bytes) → find_named k r.named_headers ≡ find_named k ns)

module _ (v : Bytes) (us : List UHeader) (ns : List NHeader) (r : IsReadable v us ns) where
  pub bare_message :
      (rest : Input)
      → find_named content_length ns ≡ none
      → parse_message (cut_at_dot (ended (unlines (header_lines v us ns)))) rest
        ≡ ok (some (header_msg v us ns), rest)
  unfolding parse_message
  bare_message rest e =
      rw (parse_header-ended v us ns r (HasLength-none ns e)) (rw (last_length-none ns (pos 0) e))

  pub bare-ReadsBack :
      find_named content_length ns ≡ none → ReadsBack v us ns none (header_msg v us ns)
  bare-ReadsBack e =
      let awaits = header_msg-AwaitsBody v us ns r (HasLength-none ns e) in
      (
        awaits.valid,
        header_msg-verb v us ns r,
        header_msg-headers v us ns r,
        awaits.no_content,
        λ k. ap (find_named k) (header_msg-named_headers v us ns r),
      )

module _ (v : Bytes) (us : List UHeader) (ns : List NHeader) (r : IsReadable v us ns) (b : Bytes)
    (nonempty : 0 < length b) (fits : length b + 1 < int_min_abs)
    (header : find_named content_length ns ≡ some (print_int (pos (length b)))) where
  printed_length : to_int (strtol (print_int (pos (length b)))) ≡ pos (length b)
  printed_length = unfold atoi in atoi-print_int (pos (length b)) (omega arith)

  nonzero : eq_ℤ (pos (length b)) (pos 0) ≡ false
  nonzero = ground (arith, nonempty)

  lengths : All HasLength ns
  lengths = HasLength-some ns r.distinct header (rw printed_length nonzero)

  awaits_body : AwaitsBody (header_msg v us ns) (last_length (pos 0) ns)
  awaits_body = header_msg-AwaitsBody v us ns r lengths

  pub body_message :
      (s : Bytes) (inp : Input)
      → Follows inp (b ++ s)
      → (rest : Input) × Follows rest s
        × (parse_message (cut_at_dot (ended (unlines (header_lines v us ns)))) inp
            ≡ ok (some (filled (header_msg v us ns) b), rest))
  unfolding parse_message
  body_message s inp f =
      let (rest, g, e) =
        read_body-filled (header_msg v us ns) b s inp awaits_body.valid awaits_body.no_content
          nonempty fits f in
      (
        rest,
        g,
        rw (parse_header-ended v us ns r lengths) (
            rw (last_length-some ns (pos 0) r.distinct header)
              (rw printed_length (rw nonzero (rw e refl)))),
      )

  named_headers :
      (k : Bytes) → find_named k (filled (header_msg v us ns) b).named_headers ≡ find_named k ns
  named_headers k =
      find_named-add_named_header _ content_length (print_int (pos (length b))) k
        (rw (header_msg-named_headers v us ns r) r.distinct)
      ∙ set_again
    where
      set_again :
          (if same_nocase content_length k
            then some (print_int (pos (length b)))
            else find_named k (header_msg v us ns).named_headers)
          ≡ find_named k ns
      set_again =
          rw (header_msg-named_headers v us ns r)
            (ground (arith, find_named-same content_length k ns, header))

  pub body-ReadsBack : ReadsBack v us ns (some b) (filled (header_msg v us ns) b)
  body-ReadsBack = (
    filled-IsValid (header_msg v us ns) b awaits_body.valid nonempty (omega arith),
    ap (λ x. x.verb) (add_named_header_lem _ content_length _) ∙ header_msg-verb v us ns r,
    ap (λ x. x.headers) (add_named_header_lem _ content_length _) ∙ header_msg-headers v us ns r,
    filled-content (header_msg v us ns) b,
    named_headers,
  )
