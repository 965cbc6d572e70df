-- ===== src/Wire/Lines.antt =====
-- `__hms_parse_header` on the lines of a printed message.
use hermes_c.CText.Token.{Free, tokens-separated, tokens_last}
use hermes_c.CText.{Bytes, codes, in_set, split_at, tokens}
use hermes_c.Msg.Print.Laws.{words}
use hermes_c.Msg.{Msg, UHeader, NHeader, add_header, set_verb}
use hermes_c.Parser.{word_loop, parse_verb_line, store_named, after_colon, parse_named_header}
use hermes_c.Prelude.{
  ℕ, suc, ◌≡◌, ◌≢◌, ◌∙◌, refl, ap, true, false, ◌||◌, some, List, [], ◌∷◌, ◌++◌, arith, All,
  append-nil, if◌then◌else◌, ◌==◌, ℤ, suc-ne-zero,
}
use hermes_c.Process.{rc_ok}
use hermes_c.Wire.{LineText, IsWord, IsField, line_of, unlines, is_line_byte, is_word_byte}

abbrev pub map_line : List NHeader → List Bytes
map_line [] = []
map_line (h ∷ hs) = line_of h ∷ map_line hs

line_byte-Free : (c : ℕ) → is_line_byte c ≡ true → in_set (codes "\n") c ≡ false
line_byte-Free c h = ground arith

LineText-Free : (l : Bytes) → LineText l → Free (codes "\n") l
LineText-Free [] h = tt
LineText-Free (c ∷ l) (hc, hl) = (line_byte-Free c hc, LineText-Free l hl)

-- The outer loop visits the lines.
pub tokens-unlines :
    (ls : List Bytes) → All (λ l. (l ≢ []) × LineText l) ls → tokens (codes "\n") (unlines ls) ≡ ls
tokens-unlines [] h = unfold tokens in refl
tokens-unlines (l ∷ ls) ((ne, text), hs) =
    tokens-separated (codes "\n") l b'\n' (unlines ls) ne (LineText-Free l text) refl
    ∙ ap (◌∷◌ l) (tokens-unlines ls hs)

word_byte-Free : (c : ℕ) → is_word_byte c ≡ true → in_set (codes " \t") c ≡ false
word_byte-Free c h = ground arith

IsWord-Free : (w : Bytes) → All (λ c. is_word_byte c ≡ true) w → Free (codes " \t") w
IsWord-Free [] h = tt
IsWord-Free (c ∷ w) (hc, hw) = (word_byte-Free c hc, IsWord-Free w hw)

abbrev pub vals : List UHeader → List Bytes
vals [] = []
vals (h ∷ hs) = h.val ∷ vals hs

-- The inner loop visits the verb and the unnamed headers.
tokens-words :
    (us : List UHeader) (v : Bytes)
    → IsWord v
    → All (λ h. IsWord h.val) us
    → tokens (codes " \t") (v ++ words us) ≡ v ∷ vals us
tokens-words [] v (ne, h) hs = rw append-nil (tokens_last (codes " \t") v ne (IsWord-Free v h))
tokens-words (u ∷ us) v (ne, h) (hu, hs) =
    tokens-separated (codes " \t") v b' ' (u.val ++ words us) ne (IsWord-Free v h) refl
    ∙ ap (◌∷◌ v) (tokens-words us u.val hu hs)

abbrev pub add_all : Msg → List UHeader → Msg
add_all m [] = m
add_all m (u ∷ us) = add_all (add_header m u.val) us

word_loop_next :
    (n : ℕ) (m : Msg) (w : Bytes) (ws : List Bytes)
    → word_loop (suc n) true m (w ∷ ws) ≡ word_loop (suc (suc n)) true (add_header m w) ws
unfolding word_loop
word_loop_next n m w ws =
    ap (λ b. word_loop (suc (suc n)) (b || true) (if b then set_verb m w else add_header m w) ws)
      (suc-ne-zero n)

word_loop-add_all :
    (us : List UHeader) (n : ℕ) (m : Msg)
    → word_loop (suc n) true m (vals us) ≡ (true, add_all m us)
word_loop-add_all [] n m = unfold word_loop in refl
word_loop-add_all (u ∷ us) n m =
    word_loop_next n m u.val (vals us) ∙ word_loop-add_all us (suc n) (add_header m u.val)

pub parse_verb_line-words :
    (m : Msg) (v : Bytes) (us : List UHeader)
    → IsWord v
    → All (λ h. IsWord h.val) us
    → parse_verb_line m (v ++ words us) ≡ (rc_ok, add_all (set_verb m v) us)
unfolding parse_verb_line
parse_verb_line-words m v us hv hs =
    rw (tokens-words us v hv hs) (rw (word_loop-add_all us 0 (set_verb m v)))

split_at-colon :
    (k v : Bytes) → All (λ c. (c == b':') ≡ false) k → split_at b':' (k ++ (b':' ∷ v)) ≡ some (k, v)
unfolding split_at
split_at-colon [] v h = refl
split_at-colon (c ∷ k) v (hc, hk) = ground (arith, split_at-colon k v hk)

pub parse_named_header-line_of :
    (m : Msg) (h : NHeader) (n : ℤ)
    → IsField h
    → parse_named_header m (line_of h) n ≡ store_named m h.key h.val n
unfolding parse_named_header after_colon
parse_named_header-line_of m h n f =
    rw (split_at-colon h.key h.val f.no_colon) (rw (f.key_stripped, f.val_stripped))
