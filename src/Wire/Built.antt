-- ===== src/Wire/Built.antt =====
-- The message that the parser of src/hms/hms_parser.c builds from a header.
use hermes_c.CText.{Bytes}
use hermes_c.Msg.Named.{add_named_header_lem}
use hermes_c.Msg.{
  Msg, UHeader, NHeader, add_header, add_named_header, create, create_header, set_verb,
}
use hermes_c.Parser.Safe.{AwaitsBody, parse_header-Parsed}
use hermes_c.Parser.{cut_at_dot}
use hermes_c.Prelude.{
  ◌≡◌, ◌∙◌, refl, sym, ap, Option, some, List, [], ◌∷◌, ◌++◌, All, append_assoc, append-nil, pos,
}
use hermes_c.Wire.Fields.{add_fields, last_length, HasLength, named_headers-add_fields}
use hermes_c.Wire.Header.{IsReadable, header_lines, header_msg, parse_header-ended}
use hermes_c.Wire.Lines.{add_all}
use hermes_c.Wire.Scan.{ended}
use hermes_c.Wire.{unlines}

-- Adding headers changes one chain.
add_all-headers : (us : List UHeader) (m : Msg) → (add_all m us).headers ≡ m.headers ++ us
unfolding add_header create_header
add_all-headers [] m = sym (append-nil m.headers)
add_all-headers (u ∷ us) m =
    add_all-headers us (add_header m u.val) ∙ append_assoc m.headers (u ∷ []) us

-- The other parts of a message that its headers leave alone.
abbrev same_rest : Msg → Option Bytes × List NHeader
same_rest m = (m.verb, m.named_headers)

add_all-rest : (us : List UHeader) (m : Msg) → same_rest (add_all m us) ≡ same_rest m
unfolding add_header
add_all-rest [] m = refl
add_all-rest (u ∷ us) m = add_all-rest us (add_header m u.val)

abbrev rest_of_fields : Msg → Option Bytes × List UHeader
rest_of_fields m = (m.verb, m.headers)

add_fields-rest :
    (hs : List NHeader) (m : Msg) → rest_of_fields (add_fields m hs) ≡ rest_of_fields m
add_fields-rest [] m = refl
add_fields-rest (h ∷ hs) m =
    add_fields-rest hs (add_named_header m h.key h.val)
    ∙ ap rest_of_fields (add_named_header_lem m h.key h.val)

module _ (v : Bytes) (us : List UHeader) (ns : List NHeader) (r : IsReadable v us ns) where
  named-nil : (add_all (set_verb create v) us).named_headers ≡ []
  named-nil = ap (λ p. p.1) (add_all-rest us (set_verb create v)) ∙ unfold set_verb create in refl

  pub header_msg-named_headers : (header_msg v us ns).named_headers ≡ ns
  header_msg-named_headers =
      named_headers-add_fields ns (add_all (set_verb create v) us) (rw named-nil r.distinct)
      ∙ ap (λ x. x ++ ns) named-nil

  pub header_msg-headers : (header_msg v us ns).headers ≡ us
  header_msg-headers =
      ap (λ p. p.1) (add_fields-rest ns (add_all (set_verb create v) us))
      ∙ add_all-headers us (set_verb create v)
      ∙ unfold set_verb create in refl

  pub header_msg-verb : (header_msg v us ns).verb ≡ some v
  header_msg-verb =
      ap (λ p. p.0) (add_fields-rest ns (add_all (set_verb create v) us))
      ∙ ap (λ p. p.0) (add_all-rest us (set_verb create v))
      ∙ unfold set_verb in refl

  pub header_msg-AwaitsBody :
      All HasLength ns → AwaitsBody (header_msg v us ns) (last_length (pos 0) ns)
  header_msg-AwaitsBody h =
      let parsed =
        rw (parse_header-ended v us ns r h) at
          (parse_header-Parsed (cut_at_dot (ended (unlines (header_lines v us ns))))) in
      parsed.1 refl
