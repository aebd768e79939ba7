-- ===== src/Push.antt =====
-- internal/push/worker.go: the worker of one subscription. A pass is one turn of the loop in
-- `run`; what the world does in it is a `Turn`. Times are nanoseconds.
pub mod Backoff
pub mod Attempts
pub mod Delivery
pub mod Progress
pub mod Manager
mod Tests
use hooks.Prelude.{
  ℕ, ◌+◌, ◌-◌, ◌*◌, ◌^◌, String, List, [], ◌∷◌, ◌++◌, Bool, true, false, not, ◌&&◌, ◌||◌, Option,
  none, some, ltb, leb, ◌==◌, if◌then◌else◌, Result, ok, err, string_eq, nat_eq,
}
use hooks.Store.Events
use hooks.Store.Events.{Event}
use hooks.Store.Push.{
  PushSubscription, Table, get_push, update_cursor_and_success, record_failure, is_active,
}
use hooks.Sources.{second}

abbrev pub millisecond : ℕ
millisecond = 1000000

abbrev pub default_backoff_cap : ℕ
default_backoff_cap = 60 * second

abbrev pub default_batch_size : ℕ
default_batch_size = 100

abbrev pub warn_failure_streak : ℕ
warn_failure_streak = 100

-- The bound of the delay; the shift and the products stay below 2 ^ 63.
unfoldable pub backoff_base : ℕ → ℕ
backoff_base failures =
    let lower = if leb failures 0 then 1 else failures in
    let clamped = if ltb 30 lower then 30 else lower in
    let base = 2 ^ (clamped - 1) * (100 * millisecond) in
    if ltb default_backoff_cap base then default_backoff_cap else base

-- `backoff`; `int63n n` is what the generator draws below n.
unfoldable pub backoff : (ℕ → ℕ) → ℕ → ℕ
unfolding backoff_base
backoff int63n failures =
    if leb (backoff_base failures) 0 then 100 * millisecond else int63n (backoff_base failures)

-- What one turn of the loop meets. Each flag says that a call fails.
pub record Turn : Type 0 where
  pub cancelled : Bool
  -- `Subs.Get`
  pub get_fails : Bool
  pub has_secret : Bool
  -- The table during `ReadSince`, which fails where it is `none`.
  pub table : Option (List Event)
  -- `http.NewRequestWithContext`
  pub request_fails : Bool
  -- The target's status, `none` for a transport error.
  pub status : Option ℕ
  -- The database refuses the write after the attempt.
  pub write_fails : Bool
  -- `Subs.Get` in `failureWarn`, and after it in `run`
  pub warn_get_fails : Bool
  pub backoff_get_fails : Bool
  pub now : ℕ
  pub message : String

-- The rows of the store, the worker's flag, and what has happened so far: the events posted with
-- the status that the target answered, and the events whose delivery counted as done.
pub record Worker : Type 0 where
  pub rows : Table
  pub warned : Bool
  pub answers : List (Event × ℕ)
  pub delivered : List Event

-- How a turn ends: the worker exits, waits (for a signal or up to a time), or goes on at once.
pub data Verdict : Type 0 where
  exits waits goes_on : Verdict
  waits_for_backoff : ℕ → Verdict

abbrev pub batch_size : ℕ → ℕ
batch_size configured = if leb configured 0 then default_batch_size else configured

abbrev pub is_success : ℕ → Bool
is_success status = not (ltb status 200 || leb 300 status)

-- The worker's own copy of the subscription gives the id and the target.
module _ (id target_url : String) where
  -- The error of `RecordFailure` is dropped.
  unfoldable pub note_failure : Turn → Worker → Worker
  unfolding record_failure
  note_failure t w =
      if t.write_fails then w else record w { rows = (record_failure id t.now t.message w.rows).1 }

  -- Behind a 2xx answer: `UpdateCursorAndSuccess`, whose error makes the delivery fail.
  unfoldable pub note_success : Turn → Event → Worker → Bool × Worker
  unfolding update_cursor_and_success
  note_success t ev w =
      if t.write_fails
      then (false, w)
      else elim (update_cursor_and_success id ev.sequence t.now w.rows).0 [
        | err _ ↦ (false, w)
        | ok _ ↦ (
          true,
          record w {
            rows = (update_cursor_and_success id ev.sequence t.now w.rows).1;
            delivered = w.delivered ++ ev ∷ [];
          },
        )
      ]

  unfoldable pub judge : Turn → Event → ℕ → Worker → Bool × Worker
  unfolding note_failure note_success
  judge t ev status w = if is_success status then note_success t ev w else (false, note_failure t w)

  abbrev pub hear : Event → ℕ → Worker → Worker
  hear ev status w = record w { answers = w.answers ++ (ev, status) ∷ [] }

  -- `deliver`
  unfoldable pub deliver : Turn → Event → Worker → Bool × Worker
  unfolding judge
  deliver t ev w =
      if target_url == "" || t.request_fails then (false, note_failure t w) else elim t.status [
        | none ↦ (false, note_failure t w)
        | some status ↦ judge t ev status (hear ev status w)
      ]

  -- `failureWarn`
  unfoldable pub failure_warn : Turn → Worker → Bool
  unfolding get_push
  failure_warn t w = if t.warn_get_fails then w.warned else elim (get_push id w.rows) [
    | none ↦ w.warned
    | some fresh ↦
        if not w.warned && leb warn_failure_streak fresh.consecutive_failures
        then true
        else w.warned
  ]

  -- The count that `run` reads again; a failed read gives the zero value.
  abbrev pub failures_now : Turn → Worker → ℕ
  failures_now t w =
      if t.backoff_get_fails
      then 0
      else elim (get_push id w.rows) [ none ↦ 0 | some fresh ↦ fresh.consecutive_failures ]

  module _ (int63n : ℕ → ℕ) (configured_batch : ℕ) where
    -- After the attempt: a failure is followed by the backoff, and the cursor stays.
    unfoldable pub after_delivery : Turn → Bool × Worker → Verdict × Worker
    unfolding failure_warn backoff
    after_delivery t (true, w) = (goes_on, record w { warned = false })
    after_delivery t (false, w) = (
      waits_for_backoff (backoff int63n (failures_now t w)),
      record w { warned = failure_warn t w },
    )

    abbrev pub read_batch : Turn → PushSubscription → Option (List Event)
    read_batch t sub = elim t.table [
      | none ↦ none
      | some events ↦
          some (Events.read_since sub.source sub.cursor (batch_size configured_batch) events)
    ]

    unfoldable pub attempt : Turn → Worker → Option (List Event) → Verdict × Worker
    unfolding after_delivery deliver
    attempt t w none = (waits, w)
    attempt t w (some []) = (waits, w)
    attempt t w (some (ev ∷ _)) = after_delivery t (deliver t ev w)

    unfoldable pub with_row : Turn → Worker → Option PushSubscription → Verdict × Worker
    unfolding attempt
    with_row t w none = (waits, w)
    with_row t w (some sub) =
        if not (is_active sub)
        then (exits, w)
        else if not t.has_secret
        then (waits, w)
        else attempt t w (read_batch t sub)

    -- One turn of the loop in `run`.
    unfoldable pub turn : Turn → Worker → Verdict × Worker
    unfolding with_row get_push
    turn t w =
        if t.cancelled
        then (exits, w)
        else if t.get_fails
        then (waits, w)
        else with_row t w (get_push id w.rows)

    -- `run`, over what the world does in each turn.
    unfoldable pub run : List Turn → Worker → Worker
    unfolding turn
    run [] w = w
    run (t ∷ turns) w =
        let rest = run turns (turn t w).1 in elim (turn t w).0 [ exits ↦ (turn t w).1 | _ ↦ rest ]
