-- ===== src/Wire/Header.antt =====
-- The header of a printed message, read back by src/hms/hms_parser.c.
use hermes_c.CText.{Bytes, codes, tokens}
use hermes_c.Msg.Named.{Distinct}
use hermes_c.Msg.Print.Laws.{words, lines, wire}
use hermes_c.Msg.{Msg, UHeader, NHeader, create, set_verb}
use hermes_c.Parser.Chunks.{Follows, HeaderLoops, hdr_loop-flat_loop}
use hermes_c.Parser.Outcome.{parse-parse_within, read_header_lem}
use hermes_c.Parser.{
  parse_within, hdr_loop, hdr_start, cut_at_dot, after_line, line_loop, parse_header, parse_message,
  parse,
}
use hermes_c.Prelude.{
  ltb, int_min_abs, ◌+◌, ◌<◌, list_laws, ℕ, ◌≤◌, ◌≡◌, ◌≢◌, ◌∙◌, refl, sym, ap, subst, true, false,
  List, [], ◌∷◌, ◌++◌, arith, length, length-append, All, append_assoc, append-nil, ◌==◌, pos,
  lt→ltb, cons-ne-nil,
}
use hermes_c.Process.{rc_ok}
use hermes_c.Socket.{Input}
use hermes_c.Wire.Fields.{add_fields, last_length, HasLength, line_loop-fields}
use hermes_c.Wire.Lines.{map_line, add_all, parse_verb_line-words, tokens-unlines}
use hermes_c.Wire.Scan.{ended, flat_loop-header, c_str-ended}
use hermes_c.Wire.{LineText, IsQuiet, IsWord, IsField, unlines}

-- The text of a header can be read back: its verb and unnamed headers are words, its named headers
-- are fields with distinct keys, and no line ends the header.
pub record IsReadable (v : Bytes) (us : List UHeader) (ns : List NHeader) : Type 0 where
  pub verb_word : IsWord v
  pub header_words : All (λ h. IsWord h.val) us
  pub first_quiet : IsQuiet (v ++ words us)
  pub fields : All IsField ns
  pub distinct : Distinct ns

-- The lines before the one of the period.
abbrev pub header_lines : Bytes → List UHeader → List NHeader → List Bytes
header_lines v us ns = (v ++ words us) ∷ map_line ns

lines-unlines : (ns : List NHeader) → lines ns ≡ unlines (map_line ns)
lines-unlines [] = refl
lines-unlines (n ∷ ns) =
    ap (λ t. n.key ++ (b':' ∷ (n.val ++ (b'\n' ∷ t)))) (lines-unlines ns)
    ∙ sym (append_assoc n.key (b':' ∷ n.val) (b'\n' ∷ unlines (map_line ns)))

pub wire-unlines :
    (v : Bytes) (us : List UHeader) (ns : List NHeader) (s : Bytes)
    → wire v us ns ++ s ≡ unlines (header_lines v us ns) ++ (b'.' ∷ b'\n' ∷ s)
wire-unlines v us ns s = rw lines-unlines (simp list_laws)

map_line-IsQuiet : (ns : List NHeader) → All IsField ns → All IsQuiet (map_line ns)
map_line-IsQuiet [] h = tt
map_line-IsQuiet (n ∷ ns) (f, fs) = (f.quiet, map_line-IsQuiet ns fs)

append-ne-nil : (a : Bytes) (c : ℕ) (b : Bytes) → a ++ c ∷ b ≢ []
append-ne-nil [] c b = cons-ne-nil c b
append-ne-nil (x ∷ a) c b = cons-ne-nil x _

map_line-LineText :
    (ns : List NHeader) → All IsField ns → All (λ l. (l ≢ []) × LineText l) (map_line ns)
map_line-LineText [] h = tt
map_line-LineText (n ∷ ns) (f, fs) =
    ((append-ne-nil n.key b':' n.val, f.quiet.0), map_line-LineText ns fs)

ne_append : (a b : Bytes) → a ≢ [] → a ++ b ≢ []
ne_append [] b h = absurd (h refl)
ne_append (x ∷ a) b h = cons-ne-nil x _

length_pos : (a : Bytes) → a ≢ [] → 0 < length a
length_pos [] h = absurd (h refl)
length_pos (x ∷ a) h = omega arith

no_nul_text :
    (l s : Bytes)
    → LineText l
    → All (λ c. (c == 0) ≡ false) s
    → All (λ c. (c == 0) ≡ false) (l ++ s)
no_nul_text [] s h k = k
no_nul_text (c ∷ l) s (hc, hl) k = (ground arith, no_nul_text l s hl k)

no_nul_unlines : (ls : List Bytes) → All IsQuiet ls → All (λ c. (c == 0) ≡ false) (unlines ls)
no_nul_unlines [] h = tt
no_nul_unlines (l ∷ ls) (q, qs) =
    no_nul_text l (b'\n' ∷ unlines ls) q.0 (refl, no_nul_unlines ls qs)

-- What `__hms_parse_header` makes of the header.
abbrev pub header_msg : Bytes → List UHeader → List NHeader → Msg
header_msg v us ns = add_fields (add_all (set_verb create v) us) ns

module _ (v : Bytes) (us : List UHeader) (ns : List NHeader) (r : IsReadable v us ns) where
  IsQuiet-lines : All IsQuiet (header_lines v us ns)
  IsQuiet-lines = (r.first_quiet, map_line-IsQuiet ns r.fields)

  pub line_loop-header :
      All HasLength ns
      → line_loop 0 create (pos 0) (header_lines v us ns)
        ≡ (rc_ok, header_msg v us ns, last_length (pos 0) ns)
  unfolding line_loop after_line
  line_loop-header h =
      rw (parse_verb_line-words create v us r.verb_word r.header_words)
        (line_loop-fields ns 0 (add_all (set_verb create v) us) (pos 0) r.fields h)

  -- The buffer of a readable header is parsed to its verb and headers.
  pub parse_header-ended :
      All HasLength ns
      → parse_header create (cut_at_dot (ended (unlines (header_lines v us ns))))
        ≡ (rc_ok, header_msg v us ns, last_length (pos 0) ns)
  unfolding parse_header
  parse_header-ended h =
      ap (λ t. line_loop 0 create (pos 0) (tokens (codes "\n") t))
        (c_str-ended (unlines (header_lines v us ns))
          (no_nul_unlines (header_lines v us ns) IsQuiet-lines))
      ∙ ap (line_loop 0 create (pos 0)) (
          tokens-unlines (header_lines v us ns) (
            (ne_append v (words us) r.verb_word.0, r.first_quiet.0),
            map_line-LineText ns r.fields,
          ))
      ∙ line_loop-header h

  length-unlines : 2 ≤ length (unlines (header_lines v us ns))
  length-unlines = omega (
    arith,
    length-append (v ++ words us) (b'\n' ∷ unlines (map_line ns)),
    length_pos (v ++ words us) (ne_append v (words us) r.verb_word.0),
  )

  length-wire-unlines : length (wire v us ns) ≡ length (unlines (header_lines v us ns)) + 2
  length-wire-unlines =
      ap length (sym (append-nil (wire v us ns)) ∙ wire-unlines v us ns [])
      ∙ length-append (unlines (header_lines v us ns)) (b'.' ∷ b'\n' ∷ [])

  long_header : ltb 2 (length (ended (unlines (header_lines v us ns))).buffer) ≡ true
  long_header =
      let text = unlines (header_lines v us ns) in
      lt→ltb _ _ (
        omega (
          arith,
          length-unlines,
          length-append (text ++ b'.' ∷ []) (b'\n' ∷ []),
          length-append text (b'.' ∷ []),
        ))

  -- The header loop reads exactly the header, however it is cut into chunks.
  pub hdr_loop-wire :
      (inp : Input) (s : Bytes) (max : ℕ)
      → Follows inp (wire v us ns ++ s)
      → length (wire v us ns) ≤ max
      → HeaderLoops (hdr_loop max hdr_start inp) (true, ended (unlines (header_lines v us ns)), s)
  hdr_loop-wire inp s max f fits =
      let text = header_lines v us ns in
      subst (HeaderLoops (hdr_loop max hdr_start inp))
        (flat_loop-header text s max IsQuiet-lines (omega (arith, length-wire-unlines)))
        (hdr_loop-flat_loop max hdr_start _ inp (rw (wire-unlines v us ns s) at f))

  -- Behind the header `hms_msg_parse` goes on with the buffer of these lines.
  pub parse-wire :
      (inp : Input) (s : Bytes) (max : ℕ)
      → Follows inp (wire v us ns ++ s)
      → length (wire v us ns) ≤ max
      → max + 1 < int_min_abs
      → (rest : Input) × Follows rest s
        × (parse inp max ≡ parse_message (cut_at_dot (ended (unlines (header_lines v us ns)))) rest)
  unfolding parse_within
  parse-wire inp s max f fits small =
      let (done, state, follows) = hdr_loop-wire inp s max f fits in
      (
        (hdr_loop max hdr_start inp).2,
        follows,
        parse-parse_within inp max small
            ∙ rw (read_header_lem inp max (omega (arith, length-wire-unlines)))
                (rw (done, state) (rw long_header)),
      )
