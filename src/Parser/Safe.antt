-- ===== src/Parser/Safe.antt =====
-- What the parser of src/hms/hms_parser.c promises on every input: no undefined behaviour, a valid
-- message, and the one way in which it ends the process.
use hermes_c.CText.Number.{strtol}
use hermes_c.CText.{Bytes, codes, c_str, same_nocase, split_at, tokens}
use hermes_c.Msg.Headers.{find_named-add_named_header}
use hermes_c.Msg.Named.{add_named_header_lem}
use hermes_c.Msg.Valid.{
  IsValid, create-IsValid, set_verb-IsValid, add_header-IsValid, add_named_header-IsValid,
}
use hermes_c.Msg.{Msg, add_header, add_named_header, content_length, create, find_named, set_verb}
use hermes_c.Parser.{
  str_strip, word_loop, store_named, after_colon, after_line, parse_verb_line, parse_named_header,
  line_loop, parse_header,
}
use hermes_c.Prelude.{
  ℕ, zero, suc, ◌≡◌, ◌∙◌, refl, sym, ap, true≢false, eq_ℤ→eq, Bool, true, false, ◌||◌, Option, none,
  some, List, [], ◌∷◌, arith, ◌==◌, if◌then◌else◌, ℤ, pos, to_int, to_int-IsInt, IsInt, eq_ℤ,
  Bool-cases, inl, inr,
}
use hermes_c.Process.{rc_ok}

-- The state between the header and the body: a valid message with no body, and a length that is
-- nonzero if there is a Content-Length.
pub record AwaitsBody (m : Msg) (body_len : ℤ) : Type 0 where
  pub valid : IsValid m
  pub no_content : m.content ≡ none
  pub no_length : body_len ≡ pos 0 → find_named content_length m.named_headers ≡ none
  pub is_int : IsInt body_len

set_verb-AwaitsBody : {m : Msg} {n : ℤ} (w : Bytes) → AwaitsBody m n → AwaitsBody (set_verb m w) n
unfolding set_verb
set_verb-AwaitsBody w a = record {
  valid = set_verb-IsValid w a.valid;
  no_content = a.no_content;
  no_length = a.no_length;
  is_int = a.is_int;
}

add_header-AwaitsBody :
    {m : Msg} {n : ℤ} (w : Bytes) → AwaitsBody m n → AwaitsBody (add_header m w) n
unfolding add_header
add_header-AwaitsBody w a = record {
  valid = add_header-IsValid w a.valid;
  no_content = a.no_content;
  no_length = a.no_length;
  is_int = a.is_int;
}

word-AwaitsBody :
    (first : Bool) {m : Msg} {n : ℤ} (w : Bytes)
    → AwaitsBody m n
    → AwaitsBody (if first then set_verb m w else add_header m w) n
word-AwaitsBody true w a = set_verb-AwaitsBody w a
word-AwaitsBody false w a = add_header-AwaitsBody w a

word_loop-AwaitsBody :
    (ws : List Bytes) (count : ℕ) (found : Bool) (m : Msg) {n : ℤ}
    → AwaitsBody m n
    → AwaitsBody (word_loop count found m ws).1 n
unfolding word_loop
word_loop-AwaitsBody [] count found m a = a
word_loop-AwaitsBody (w ∷ ws) count found m a =
    word_loop-AwaitsBody ws (suc count) (count == 0 || found)
      (if count == 0 then set_verb m w else add_header m w) (word-AwaitsBody (count == 0) w a)

parse_verb_line-AwaitsBody :
    (m : Msg) (l : Bytes) {n : ℤ} → AwaitsBody m n → AwaitsBody (parse_verb_line m l).1 n
unfolding parse_verb_line
parse_verb_line-AwaitsBody m l a = word_loop-AwaitsBody (tokens (codes " \t") l) 0 false m a

-- What a step of the header parser leaves: a message that can be destroyed, and if it succeeds one
-- that awaits its body.
abbrev pub Parsed : ℤ × Msg × ℤ → Type 0
Parsed (rc, m, n) = IsValid m × (rc ≡ rc_ok → AwaitsBody m n)

content-add_named_header : (m : Msg) (k v : Bytes) → (add_named_header m k v).content ≡ m.content
content-add_named_header m k v = ap (λ x. x.content) (add_named_header_lem m k v)

added-AwaitsBody :
    (m : Msg) (k v : Bytes) {n : ℤ} (len : ℤ)
    → AwaitsBody m n
    → IsInt len
    → (len ≡ pos 0 → (same_nocase k content_length ≡ false) × (n ≡ pos 0))
    → AwaitsBody (add_named_header m k v) len
added-AwaitsBody m k v len a i other = record {
  valid = add_named_header-IsValid k v a.valid (inl a.no_content);
  no_content = content-add_named_header m k v ∙ a.no_content;
  no_length = λ z.
      let (differs, zero_before) = other z in
      find_named-add_named_header m k v content_length a.valid.distinct
      ∙ rw differs (a.no_length zero_before);
  is_int = i;
}

store_named-Parsed : (m : Msg) (k v : Bytes) (n : ℤ) → AwaitsBody m n → Parsed (store_named m k v n)
unfolding store_named
store_named-Parsed m k v n a = elim (Bool-cases (same_nocase k content_length)) [
  | inl same ↦ rw same (elim (Bool-cases (eq_ℤ (to_int (strtol v)) (pos 0))) [
    | inl zero_len ↦ rw zero_len (a.valid, λ e. cc)
    | inr positive ↦
        let next =
          added-AwaitsBody m k v (to_int (strtol v)) a (to_int-IsInt (strtol v))
            (λ z. absurd (true≢false (sym (ap (λ x. eq_ℤ x (pos 0)) z) ∙ positive))) in
        rw positive (next.valid, λ _. next)
  ])
  | inr differs ↦
      let next = added-AwaitsBody m k v n a a.is_int (λ z. (differs, z)) in
      rw differs (next.valid, λ _. next)
]

parse_named_header-Parsed :
    (m : Msg) (l : Bytes) (n : ℤ) → AwaitsBody m n → Parsed (parse_named_header m l n)
unfolding parse_named_header
parse_named_header-Parsed m l n a = go (split_at b':' l)
  where
    go : (o : Option (Bytes × Bytes)) → Parsed (after_colon m o n)
    go none = (a.valid, λ e. cc)
    go (some (k, v)) = store_named-Parsed m (str_strip k) (str_strip v) n a

after_line-Parsed :
    (next : Msg → ℤ → ℤ × Msg × ℤ) (r : ℤ × Msg × ℤ)
    → Parsed r
    → ((m : Msg) (n : ℤ) → AwaitsBody m n → Parsed (next m n))
    → Parsed (after_line next r)
unfolding after_line
after_line-Parsed next (rc, m, n) (valid, awaits) ih = elim (Bool-cases (eq_ℤ rc rc_ok)) [
  | inl success ↦ rw success (ih m n (awaits (eq_ℤ→eq rc rc_ok success)))
  | inr failure ↦ rw failure (valid, λ e. cc)
]

line_loop-Parsed :
    (ls : List Bytes) (count : ℕ) (m : Msg) (n : ℤ)
    → AwaitsBody m n
    → Parsed (line_loop count m n ls)
unfolding line_loop
line_loop-Parsed [] zero m n a = (a.valid, λ _. a)
line_loop-Parsed [] (suc count) m n a = (a.valid, λ _. a)
line_loop-Parsed (l ∷ ls) zero m n a =
    let verb = parse_verb_line-AwaitsBody m l a in
    after_line-Parsed _ ((parse_verb_line m l).0, (parse_verb_line m l).1, n)
      (verb.valid, λ _. verb) (line_loop-Parsed ls 1)
line_loop-Parsed (l ∷ ls) (suc count) m n a =
    after_line-Parsed _ (parse_named_header m l n) (parse_named_header-Parsed m l n a)
      (line_loop-Parsed ls (suc (suc count)))

create-AwaitsBody : AwaitsBody create (pos 0)
unfolding create find_named
create-AwaitsBody = record {
  valid = unfold create in create-IsValid;
  no_content = refl;
  no_length = λ _. refl;
  is_int = omega arith;
}

-- For every buffer the header parser leaves a valid message. If it returns 0, the message has no
-- body yet, the length that it stored is an `int`, and it is zero only where there is no
-- Content-Length.
pub parse_header-Parsed : (buffer : Bytes) → Parsed (parse_header create buffer)
unfolding parse_header
parse_header-Parsed buffer =
    line_loop-Parsed (tokens (codes "\n") (c_str buffer)) 0 create (pos 0) create-AwaitsBody
