-- ===== src/Subscribe/Cursor.antt =====
-- `parseCursor` of internal/subscribe/handler.go: where a client's stream starts.
use hooks.Prelude.{
  ℕ, ◌≤◌, ◌≡◌, refl, ◌≢◌, ◌⊎◌, String, ℤ, pos, negsuc, ltb_ℤ, pos_part, Option, none, some, arith,
  ◌==◌, if◌then◌else◌, Result, ok, err, ◌>>=◌, parse_int, string_eq,
}

pub data CursorError : Type 0 where
  store_failed bad_since negative_since bad_last_event_id : CursorError

abbrev since_number : Option ℤ → Result CursorError ℕ
since_number none = err bad_since
since_number (some (pos n)) = ok n
since_number (some (negsuc n)) = err negative_since

abbrev latest_or_fail : Option ℕ → Result CursorError ℕ
latest_or_fail none = err store_failed
latest_or_fail (some n) = ok n

-- `since`; `latest` is what `LatestSequence` returns.
unfoldable pub parse_since : Option ℕ → String → Result CursorError ℕ
parse_since latest v =
    if v == ""
    then ok 0
    else if v == "latest"
    then latest_or_fail latest
    else since_number (parse_int v)

-- `if n > cursor { cursor = n }`
abbrev raise_to : ℕ → Option ℤ → Result CursorError ℕ
raise_to cursor none = err bad_last_event_id
raise_to cursor (some n) = ok (if ltb_ℤ (pos cursor) n then pos_part n else cursor)

unfoldable pub parse_last_event_id : String → ℕ → Result CursorError ℕ
parse_last_event_id v cursor = if v == "" then ok cursor else raise_to cursor (parse_int v)

unfoldable pub parse_cursor : Option ℕ → String → String → Result CursorError ℕ
parse_cursor latest since last_event_id = do
  cursor ← parse_since latest since
  parse_last_event_id last_event_id cursor

-- The header's number, 0 where it is absent, malformed or negative.
abbrev pub header_number : String → ℕ
header_number v = elim (parse_int v) [ none ↦ 0 | some n ↦ pos_part n ]

-- A stream starts at the larger of the two positions, so it starts behind neither: not behind the
-- query's, and not behind the event that the client names as its last.
pub parse_cursor_max :
    (latest : Option ℕ) (since last_event_id : String) (cursor : ℕ)
    → parse_cursor latest since last_event_id ≡ ok cursor
    → (start : ℕ) × (parse_since latest since ≡ ok start)
      × (start ≤ cursor)
      × (last_event_id ≢ "" → header_number last_event_id ≤ cursor)
      × ((cursor ≡ start) ⊎ (cursor ≡ header_number last_event_id))
unfolding parse_cursor parse_last_event_id
parse_cursor_max latest since last_event_id cursor h = go (parse_since latest since) refl
  where
    go :
        (r : Result CursorError ℕ)
        → parse_since latest since ≡ r
        → (start : ℕ) × (parse_since latest since ≡ ok start)
          × (start ≤ cursor)
          × (last_event_id ≢ "" → header_number last_event_id ≤ cursor)
          × ((cursor ≡ start) ⊎ (cursor ≡ header_number last_event_id))
    go (err e) p = absurd (ground arith)
    go (ok start) p = (start, p, ground arith, (λ q. ground arith), ground arith)
