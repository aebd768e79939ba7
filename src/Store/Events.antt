-- ===== src/Store/Events.antt =====
-- internal/store: `SQLite` as an `EventStore` (sqlite.go), over the queries of
-- sqlcgen/events.sql.go. The table is the list of its rows in the order of insertion. A time is
-- its nanoseconds since 1970; the provider's time may be negative, the server's clock may not, so
-- a cutoff before 1970 selects what the cutoff 0 selects and truncated subtraction is exact.
-- `headers_json` holds the headers themselves: `json.Unmarshal` undoes `json.Marshal` on them.
pub mod Sequence
pub mod Dedupe
pub mod Reads
mod Tests
use hooks.Prelude.{
  ℕ, ◌+◌, ◌-◌, max, String, ℤ, List, [], ◌∷◌, ◌++◌, Bool, not, ◌&&◌, Option, none, some, leb, ltb,
  ◌==◌, if◌then◌else◌, Result, ok, err, keep, any, find?, take, length, string_eq, nat_eq,
}

abbrev pub Headers : Type 0
Headers = List (String × String)

pub record Event : Type 0 where
  pub source : String
  pub sequence : ℕ
  pub delivery_id : String
  pub provider_timestamp : ℤ
  pub received_at : ℕ
  pub headers : Headers
  pub body : List ℕ
  pub body_sha256 : String

pub record AppendInput : Type 0 where
  pub source : String
  pub delivery_id : String
  pub provider_timestamp : ℤ
  pub headers : Headers
  pub body : List ℕ

pub data AppendError : Type 0 where
  empty_source empty_delivery_id duplicate insert_failed : AppendError

-- SELECT 1 … WHERE source = ? AND delivery_id = ? AND received_at >= ? LIMIT 1
unfoldable pub check_event_duplicate : String → String → ℕ → List Event → Bool
check_event_duplicate source delivery_id cutoff =
    any λ e. e.source == source && e.delivery_id == delivery_id && leb cutoff e.received_at

-- COALESCE(MAX(sequence), 0)
unfoldable pub latest_event_sequence : String → List Event → ℕ
latest_event_sequence source [] = 0
latest_event_sequence source (e ∷ rows) =
    let rest = latest_event_sequence source rows in
    if e.source == source then max e.sequence rest else rest

unfoldable pub next_event_sequence : String → List Event → ℕ
next_event_sequence source rows = latest_event_sequence source rows + 1

-- The primary key is (source, sequence).
unfoldable pub insert_event : Event → List Event → Option (List Event)
insert_event e rows =
    if any (λ x. x.source == e.source && x.sequence == e.sequence) rows
    then none
    else some (rows ++ e ∷ [])

insert_by_sequence : Event → List Event → List Event
insert_by_sequence e [] = e ∷ []
insert_by_sequence e (x ∷ xs) =
    let rest = x ∷ insert_by_sequence e xs in if leb e.sequence x.sequence then e ∷ x ∷ xs else rest

-- ORDER BY sequence ASC
pub order_by_sequence : List Event → List Event
unfolding insert_by_sequence
order_by_sequence [] = []
order_by_sequence (e ∷ rows) = insert_by_sequence e (order_by_sequence rows)

abbrev pub is_after : String → ℕ → Event → Bool
is_after source cursor e = e.source == source && ltb cursor e.sequence

pub read_events_since : String → ℕ → ℕ → List Event → List Event
unfolding order_by_sequence
read_events_since source cursor limit rows =
    take limit (order_by_sequence (keep (is_after source cursor) rows))

-- DELETE … WHERE source = ? AND received_at < ?; the second part is the count of rows deleted.
unfoldable pub prune_events_by_source : String → ℕ → List Event → List Event × ℕ
prune_events_by_source source cutoff rows =
    let expired : Event → Bool = λ e. e.source == source && ltb e.received_at cutoff in
    (keep (λ e. not (expired e)) rows, length (keep expired rows))

unfoldable pub prune_all_events : ℕ → List Event → List Event × ℕ
prune_all_events cutoff rows = (
  keep (λ e. not (ltb e.received_at cutoff)) rows,
  length (keep (λ e. ltb e.received_at cutoff) rows),
)

-- The row that `Append` inserts, which is also the event that it returns.
unfoldable pub new_event : (List ℕ → String) → ℕ → AppendInput → List Event → Event
unfolding next_event_sequence
new_event sha256 now inp rows = record {
  source = inp.source;
  sequence = next_event_sequence inp.source rows;
  delivery_id = inp.delivery_id;
  provider_timestamp = inp.provider_timestamp;
  received_at = now;
  headers = inp.headers;
  body = inp.body;
  body_sha256 = sha256 inp.body;
}

-- `SQLite.Append`; `sha256` gives the hex digest of the body, `window` is `dedupeWindow` and `now`
-- is `time.Now()`. A path that returns an error rolls the transaction back.
unfoldable pub append :
    (List ℕ → String) → ℕ → ℕ → AppendInput → List Event → Result AppendError Event × List Event
append sha256 window now inp rows =
    if inp.source == ""
    then (err empty_source, rows)
    else if inp.delivery_id == ""
    then (err empty_delivery_id, rows)
    else if check_event_duplicate inp.source inp.delivery_id (now - window) rows
    then (err duplicate, rows)
    else elim (insert_event (new_event sha256 now inp rows) rows) [
      | none ↦ (err insert_failed, rows)
      | some rows' ↦ (ok (new_event sha256 now inp rows), rows')
    ]

-- `SQLite.ReadSince`: a limit that is not positive means 1000.
unfoldable pub read_since : String → ℕ → ℕ → List Event → List Event
unfolding read_events_since
read_since source cursor limit rows =
    read_events_since source cursor (if limit == 0 then 1000 else limit) rows

-- `SQLite.Get`; `none` is `ErrNotFound`.
unfoldable pub get : String → ℕ → List Event → Option Event
get source sequence = find? λ e. e.source == source && e.sequence == sequence

-- `SQLite.LatestSequence`
unfoldable pub latest_sequence : String → List Event → ℕ
unfolding latest_event_sequence
latest_sequence = latest_event_sequence

-- `SQLite.Prune` and `SQLite.PruneAll`
unfoldable pub prune : String → ℕ → List Event → List Event × ℕ
unfolding prune_events_by_source
prune = prune_events_by_source

unfoldable pub prune_all : ℕ → List Event → List Event × ℕ
unfolding prune_all_events
prune_all = prune_all_events
