-- ===== src/Wire/Stored.antt =====
-- The body behind a header, read by `__hms_read_body` of src/hms/hms_parser.c.
use hermes_c.CText.{Bytes}
use hermes_c.Msg.Body.Laws.{filled, set_body-filled}
use hermes_c.Msg.Valid.{IsValid, content_len_zero}
use hermes_c.Msg.{Msg}
use hermes_c.Parser.Chunks.{Follows}
use hermes_c.Parser.Stream.{BodyLoop, body_loop-stream}
use hermes_c.Parser.{BodyRead, complete, failed, out_of_fuel, store_body, read_body}
use hermes_c.Prelude.{
  sizes, suc, ◌+◌, ◌<◌, ◌≡◌, ◌∙◌, none, [], ◌++◌, arith, length, take-append, take-length,
  drop-append, pos, int_min_abs, lt→ltb,
}
use hermes_c.Process.{ok, rc_ok}
use hermes_c.Socket.{Input}

-- A body behind the header is read and stored, however it is cut into chunks.
stored_body :
    (m : Msg) (b s : Bytes) (r : BodyRead)
    → m.content ≡ none
    → m.content_len ≡ pos 0
    → 0 < length b
    → BodyLoop r (length b) [] (b ++ s)
    → (rest : Input) × Follows rest s × (store_body m (length b) r ≡ ok (rc_ok, filled m b, rest))
unfolding store_body
stored_body m b s (complete got rest) e l p (same, f) =
    let whole : got ≡ b = same ∙ take-append b s in
    (
      rest,
      rw (drop-append b s) at f,
      rw whole (rw (set_body-filled m b (length b) e l p (omega arith)) (rw (take-length b))),
    )
stored_body m b s (failed rest) e l p short = absurd (grind sizes)
stored_body m b s out_of_fuel e l p none_left = absurd none_left

pub read_body-filled :
    (m : Msg) (b s : Bytes) (inp : Input)
    → IsValid m
    → m.content ≡ none
    → 0 < length b
    → length b + 1 < int_min_abs
    → Follows inp (b ++ s)
    → (rest : Input) × Follows rest s
      × (read_body inp m (pos (length b)) ≡ ok (rc_ok, filled m b, rest))
unfolding read_body
read_body-filled m b s inp i e p l f = rw (lt→ltb _ _ l) (
    stored_body m b s _ e (content_len_zero i e) p
      (rw f.spells at (body_loop-stream (suc (length b)) (length b) [] inp (omega arith) f.fine)))
