-- ===== src/Subscribe.antt =====
-- internal/subscribe/handler.go: the stream of one source to one client. The k-th call of
-- `ReadSince` in a drain meets the table `tables k`, or fails where that is `none`; so other
-- clients of the database may act between two calls. The connection takes `room` more messages
-- and then fails. Time is in nanoseconds.
pub mod Drain
pub mod Order
pub mod Stream
pub mod Cursor
pub mod Backfill
mod Tests
use hooks.Prelude.{
  ℕ, zero, suc, ◌+◌, ◌-◌, ◌/◌, String, ℤ, pos, negsuc, ltb_ℤ, pos_part, neg_part, List, [], ◌∷◌,
  ◌++◌, Bool, true, false, Option, none, some, ltb, leb, ◌==◌, if◌then◌else◌, Result, ok, err,
  parse_int, string_eq, nat_eq, max, ◌-ℤ◌,
}
use hooks.Sources.{second}
use hooks.Store.Events
use hooks.Store.Events.{Event}

-- What is on the wire: an event, or the comment that keeps the connection alive.
pub data Message : Type 0 where
  event : Event → Message
  keepalive : Message

pub record Wire : Type 0 where
  pub sent : List Message
  pub room : ℕ

-- `writeEvent` and `io.WriteString`; `none` is a write error.
unfoldable pub write_from : ℕ → Message → Wire → Option Wire
write_from zero m w = none
write_from (suc room) m w = some (record { sent = w.sent ++ m ∷ []; room = room })

unfoldable pub write : Message → Wire → Option Wire
unfolding write_from
write m w = write_from w.room m w

pub data Outcome : Type 0 where
  drained store_error write_error out_of_fuel : Outcome

pub record Drained : Type 0 where
  pub outcome : Outcome
  pub cursor : ℕ
  pub wire : Wire

-- The loop over a batch. The cursor moves before the event is tested or written.
unfoldable pub emit_batch : (Event → Bool) → ℕ → Wire → List Event → Drained
unfolding write
emit_batch passes cursor w [] = record { outcome = drained; cursor = cursor; wire = w }
emit_batch passes cursor w (ev ∷ batch) = elim (passes ev) [
  | false ↦ emit_batch passes ev.sequence w batch
  | true ↦ elim (write (event ev) w) [
    | none ↦ record { outcome = write_error; cursor = ev.sequence; wire = w }
    | some w' ↦ emit_batch passes ev.sequence w' batch
  ]
]

-- The next round, unless a write has failed.
abbrev pub unless_failed : (ℕ → Wire → Drained) → Drained → Drained
unless_failed next d = elim d.outcome [ drained ↦ next d.cursor d.wire | _ ↦ d ]

module _ (source : String) (batch_limit : ℕ) (passes : Event → Bool) where
  abbrev pub read : Option (List Event) → ℕ → Option (List Event)
  read none cursor = none
  read (some rows) cursor = some (Events.read_since source cursor batch_limit rows)

  -- `readBatchAndEmit`, from its k-th round on
  unfoldable pub read_batch_and_emit : ℕ → (ℕ → Option (List Event)) → ℕ → ℕ → Wire → Drained
  unfolding emit_batch
  read_batch_and_emit zero tables k cursor w = record {
    outcome = out_of_fuel;
    cursor = cursor;
    wire = w;
  }
  read_batch_and_emit (suc fuel) tables k cursor w = elim (read (tables k) cursor) [
    | none ↦ record { outcome = store_error; cursor = cursor; wire = w }
    | some [] ↦ record { outcome = drained; cursor = cursor; wire = w }
    | some (ev ∷ batch) ↦
        unless_failed (read_batch_and_emit fuel tables (k + 1))
          (emit_batch passes cursor w (ev ∷ batch))
  ]

abbrev unix_nonpositive : ℤ → Bool
unix_nonpositive (pos ns) = leb (ns / second) 0
unix_nonpositive (negsuc ns) = true

-- The filter of `initialDrain`: a time at or before the epoch passes, an older one than the window
-- does not.
unfoldable pub is_fresh : ℕ → ℕ → Event → Bool
is_fresh now skew ev =
    if unix_nonpositive ev.provider_timestamp
    then true
    else if ltb_ℤ ev.provider_timestamp (pos now -ℤ pos skew)
    then false
    else true

unfoldable pub initial_drain :
    String → ℕ → ℕ → ℕ → ℕ → (ℕ → Option (List Event)) → ℕ → Wire → Drained
unfolding is_fresh read_batch_and_emit
initial_drain source batch_limit now skew fuel tables cursor w =
    read_batch_and_emit source batch_limit (is_fresh now skew) fuel tables 0 cursor w

-- A nil filter keeps every event.
abbrev pub unfiltered : Event → Bool
unfiltered ev = true

unfoldable pub live_drain : String → ℕ → ℕ → (ℕ → Option (List Event)) → ℕ → Wire → Drained
unfolding read_batch_and_emit
live_drain source batch_limit fuel tables cursor w =
    read_batch_and_emit source batch_limit unfiltered fuel tables 0 cursor w
