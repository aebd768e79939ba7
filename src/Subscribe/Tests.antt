-- ===== src/Subscribe/Tests.antt =====
-- A stream over a log of two events.
use hooks.Prelude.{
  ℕ_discrete, subst, ℕ, ◌≤◌, ◌≡◌, refl, ◌≢◌, ◌⊎◌, String, pos, List, [], ◌∷◌, ◌++◌, some, arith, ok,
  keep, String-discrete, parse_int,
}
use hooks.Store.Events.{Event}
use hooks.Store.Events.Sequence.{IsLog}
use hooks.Store.Events.Reads.{pending, last_sequence}
use hooks.Subscribe.{Wire, Drained, is_fresh, unfiltered, live_drain, read_batch_and_emit}
use hooks.Subscribe.Drain.{messages, after_batch, drain_complete}
use hooks.Subscribe.Stream.{
  Tables, Wake, notified, ticked, closed, stream, Follows, AreLogs, stream_in_order,
}
use hooks.Subscribe.Cursor.{
  parse_cursor, parse_since, parse_last_event_id, header_number, parse_cursor_max,
}
use hooks.Subscribe.Backfill.{backfilled, backfill_then_live}

abbrev row : ℕ → ℕ → Event
row sequence time = record {
  source = "a";
  sequence = sequence;
  delivery_id = "x";
  provider_timestamp = pos time;
  received_at = 10;
  headers = [];
  body = [];
  body_sha256 = "00";
}

abbrev two_rows : List Event
two_rows = row 1 5000000000 ∷ row 2 9000000000 ∷ []

two_rows-IsLog : IsLog two_rows
two_rows-IsLog = (((λ p. omega arith), tt), omega arith, (tt, omega arith, tt))

abbrev wire : Wire
wire = record { sent = []; room = 5 }

abbrev tables : Tables
tables k = some two_rows

tables-AreLogs : AreLogs tables
tables-AreLogs k rows h = subst IsLog (some_inj h) two_rows-IsLog
  where
    some_inj : {rows : List Event} → tables 0 ≡ some rows → two_rows ≡ rows
    some_inj h = ground arith

drain_complete_example :
    read_batch_and_emit "a" 1 unfiltered 3 (λ _. some two_rows) 0 0 wire
    ≡ after_batch unfiltered 0 wire (pending "a" 0 two_rows)
unfolding String-discrete
drain_complete_example =
    drain_complete "a" 1 unfiltered two_rows two_rows-IsLog 3 0 0 wire (omega arith) (omega arith)

abbrev wakes : List Wake
wakes = notified tables ∷ ticked tables ∷ closed ∷ []

stream_in_order_example :
    let s = stream "a" 1 3 9000000000 3000000000 tables wakes 0 wire in
    Follows 0 wire s.cursor s.wire
stream_in_order_example =
    stream_in_order "a" 1 3 9000000000 3000000000 tables wakes 0 wire tables-AreLogs
      (tables-AreLogs, (tables-AreLogs, tt))

abbrev after_backfill : Drained
after_backfill = backfilled "a" 1 9000000000 3000000000 3 0 two_rows wire

backfill_then_live_example :
    (after_backfill.wire.sent
      ≡ wire.sent ++ messages (keep (is_fresh 9000000000 3000000000) (pending "a" 0 two_rows)))
    × (after_backfill.cursor ≡ last_sequence 0 (pending "a" 0 two_rows))
    × (live_drain "a" 1 3 tables after_backfill.cursor after_backfill.wire ≡ after_backfill)
unfolding String-discrete
backfill_then_live_example =
    backfill_then_live "a" 1 9000000000 3000000000 3 0 two_rows wire two_rows-IsLog (omega arith)
      (omega arith)

parse_cursor_max_example :
    (start : ℕ) × (parse_since (some 9) "4" ≡ ok start)
    × (start ≤ 7)
    × (◌≢◌ {A = String} "7" "" → header_number "7" ≤ 7)
    × ((7 ≡ start) ⊎ (7 ≡ header_number "7"))
unfolding parse_cursor parse_since parse_last_event_id String-discrete parse_int ℕ_discrete
parse_cursor_max_example = parse_cursor_max (some 9) "4" "7" 7 refl
