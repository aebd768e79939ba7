-- ===== src/Subscribe/Stream.antt =====
-- `Handler.stream`: the backfill, then a drain for each wake-up in the order in which they come.
use mathlib.Core.List.{append-nil, append_assoc}
use hooks.Prelude.{
  ℕ, ◌≤◌, ◌≡◌, refl, sym, ap, ◌∙◌, inl, inr, String, List, [], ◌∷◌, ◌++◌, Bool, Option, none, some,
  arith, Option-cases,
}
use hooks.Store.Events.{Event}
use hooks.Store.Events.Sequence.{IsLog}
use hooks.Store.Events.Reads.{IsRising, IsRising-append, last_sequence}
use hooks.Subscribe.{
  Message, event, keepalive, Wire, write, Outcome, drained, store_error, write_error, out_of_fuel,
  Drained, initial_drain, live_drain, is_fresh, unfiltered,
}
use hooks.Subscribe.Drain.{messages}
use hooks.Subscribe.Order.{Extends, drain_in_order, rising-le, last-append}

-- What the tables are during the k-th read of a drain.
abbrev pub Tables : Type 0
Tables = ℕ → Option (List Event)

-- What `select` delivers: the request is over, the channel was closed, a signal, or the ticker.
pub data Wake : Type 0 where
  cancelled closed : Wake
  notified ticked : Tables → Wake

-- Where the stream stands: it has ended with an error, or it waits for the next wake-up.
pub data Stop : Type 0 where
  ended waiting : Stop

pub record Streamed : Type 0 where
  pub stop : Stop
  pub cursor : ℕ
  pub wire : Wire

module _ (source : String) (batch_limit fuel : ℕ) where
  abbrev resume : (ℕ → Wire → Streamed) → Drained → Streamed
  resume go d = elim d.outcome [
    | drained ↦ go d.cursor d.wire
    | _ ↦ record { stop = ended; cursor = d.cursor; wire = d.wire }
  ]

  abbrev tick : (Wire → Streamed) → ℕ → Wire → Streamed
  tick go cursor w = elim (write keepalive w) [
    | none ↦ record { stop = ended; cursor = cursor; wire = w }
    | some w' ↦ go w'
  ]

  -- The `for { select … }` loop.
  pub stream_loop : List Wake → ℕ → Wire → Streamed
  stream_loop [] cursor w = record { stop = waiting; cursor = cursor; wire = w }
  stream_loop (cancelled ∷ wakes) cursor w = record { stop = ended; cursor = cursor; wire = w }
  stream_loop (closed ∷ wakes) cursor w = record { stop = ended; cursor = cursor; wire = w }
  stream_loop (notified tables ∷ wakes) cursor w =
      resume (stream_loop wakes) (live_drain source batch_limit fuel tables cursor w)
  stream_loop (ticked tables ∷ wakes) cursor w =
      tick (λ w'. resume (stream_loop wakes) (live_drain source batch_limit fuel tables cursor w'))
        cursor w

  pub stream : ℕ → ℕ → Tables → List Wake → ℕ → Wire → Streamed
  unfolding stream_loop
  stream now skew tables wakes cursor w =
      resume (stream_loop wakes) (initial_drain source batch_limit now skew fuel tables cursor w)

abbrev pub events_sent : List Message → List Event
events_sent [] = []
events_sent (event e ∷ ms) = e ∷ events_sent ms
events_sent (keepalive ∷ ms) = events_sent ms

events_sent-append :
    (xs ys : List Message) → events_sent (xs ++ ys) ≡ events_sent xs ++ events_sent ys
events_sent-append [] ys = refl
events_sent-append (event e ∷ xs) ys = ap (◌∷◌ e) (events_sent-append xs ys)
events_sent-append (keepalive ∷ xs) ys = events_sent-append xs ys

events_sent-messages : (es : List Event) → events_sent (messages es) ≡ es
events_sent-messages [] = refl
events_sent-messages (e ∷ es) = ap (◌∷◌ e) (events_sent-messages es)

-- The events sent in between rise from above `cursor`, and `next` is at or above all of them.
pub record Follows (cursor : ℕ) (w : Wire) (next : ℕ) (w' : Wire) : Type 0 where
  pub sent : List Event
  pub on_wire : events_sent w'.sent ≡ events_sent w.sent ++ sent
  pub rising : IsRising cursor sent
  pub reached : last_sequence cursor sent ≤ next

Follows-refl :
    (cursor : ℕ) (w w' : Wire)
    → events_sent w'.sent ≡ events_sent w.sent
    → Follows cursor w cursor w'
Follows-refl cursor w w' h = record {
  sent = [];
  on_wire = h ∙ sym (append-nil (events_sent w.sent));
  rising = tt;
  reached = omega arith;
}

Follows-trans :
    (cursor mid next : ℕ) (w v u : Wire)
    → Follows cursor w mid v
    → Follows mid v next u
    → Follows cursor w next u
Follows-trans cursor mid next w v u x y = record {
  sent = x.sent ++ y.sent;
  on_wire =
      y.on_wire ∙ ap (λ s. s ++ y.sent) x.on_wire ∙ append_assoc (events_sent w.sent) x.sent y.sent;
  rising = IsRising-append cursor mid x.sent y.sent x.rising x.reached y.rising;
  reached =
      last-append unfiltered cursor mid next x.sent y.sent x.reached y.reached
        (omega (arith, rising-le unfiltered mid y.sent y.rising, y.reached));
}

Follows-Extends :
    (passes : Event → Bool) (cursor : ℕ) (w : Wire) (d : Drained)
    → Extends passes cursor w d
    → Follows cursor w d.cursor d.wire
Follows-Extends passes cursor w d x = record {
  sent = x.written;
  on_wire =
      ap events_sent x.sent
      ∙ events_sent-append w.sent (messages x.written)
      ∙ ap (◌++◌ (events_sent w.sent)) (events_sent-messages x.written);
  rising = x.rising;
  reached = x.reached;
}

abbrev pub AreLogs : Tables → Type 0
AreLogs tables = (k : ℕ) (rows : List Event) → tables k ≡ some rows → IsLog rows

abbrev pub WakeLogs : List Wake → Type 0
WakeLogs [] = Unit {0}
WakeLogs (cancelled ∷ wakes) = WakeLogs wakes
WakeLogs (closed ∷ wakes) = WakeLogs wakes
WakeLogs (notified tables ∷ wakes) = AreLogs tables × WakeLogs wakes
WakeLogs (ticked tables ∷ wakes) = AreLogs tables × WakeLogs wakes

module _ (source : String) (batch_limit fuel : ℕ) where
  resume-Follows :
      (go : ℕ → Wire → Streamed)
      → ((c : ℕ) (v : Wire) → Follows c v (go c v).cursor (go c v).wire)
      → (cursor : ℕ) (w : Wire) (d : Drained) → Follows cursor w d.cursor d.wire
      → Follows cursor w
          (resume source batch_limit fuel go d).cursor
          (resume source batch_limit fuel go d).wire
  resume-Follows go ih cursor w d x = by d.outcome refl
    where
      by :
          (o : Outcome)
          → d.outcome ≡ o
          → Follows cursor w
              (resume source batch_limit fuel go d).cursor
              (resume source batch_limit fuel go d).wire
      by drained h =
          rw (h, resume) (Follows-trans cursor d.cursor _ w d.wire _ x (ih d.cursor d.wire))
      by store_error h = rw (h, resume) x
      by write_error h = rw (h, resume) x
      by out_of_fuel h = rw (h, resume) x

  live-Follows :
      (tables : Tables) (cursor : ℕ) (w : Wire)
      → AreLogs tables
      → let d = live_drain source batch_limit fuel tables cursor w in
        Follows cursor w d.cursor d.wire
  unfolding live_drain
  live-Follows tables cursor w l =
      Follows-Extends unfiltered cursor w _
        (drain_in_order source batch_limit unfiltered tables l fuel 0 cursor w)

  write_keepalive :
      (w w' : Wire) → write keepalive w ≡ some w' → events_sent w'.sent ≡ events_sent w.sent
  unfolding write
  write_keepalive w w' h =
      let e : w'.sent ≡ w.sent ++ keepalive ∷ [] = ground arith in
      ap events_sent e
      ∙ events_sent-append w.sent (keepalive ∷ [])
      ∙ append-nil (events_sent w.sent)

  loop-Follows :
      (wakes : List Wake) (cursor : ℕ) (w : Wire)
      → WakeLogs wakes
      → let s = stream_loop source batch_limit fuel wakes cursor w in
        Follows cursor w s.cursor s.wire
  unfolding stream_loop
  loop-Follows [] cursor w l = Follows-refl cursor w w refl
  loop-Follows (cancelled ∷ wakes) cursor w l = Follows-refl cursor w w refl
  loop-Follows (closed ∷ wakes) cursor w l = Follows-refl cursor w w refl
  loop-Follows (notified tables ∷ wakes) cursor w l =
      resume-Follows (stream_loop source batch_limit fuel wakes) (λ c v. loop-Follows wakes c v l.1)
        cursor w _ (live-Follows tables cursor w l.0)
  loop-Follows (ticked tables ∷ wakes) cursor w l = elim (Option-cases (write keepalive w)) [
    | inl e ↦ rw (e, tick) (Follows-refl cursor w w refl)
    | inr (w', e) ↦
        rw (e, tick)
          (Follows-trans cursor cursor _ w w' _ (Follows-refl cursor w w' (write_keepalive w w' e))
            (resume-Follows (stream_loop source batch_limit fuel wakes)
              (λ c v. loop-Follows wakes c v l.1) cursor w' _ (live-Follows tables cursor w' l.0)))
  ]

  -- Over a whole stream, backfill and any wake-ups in any order, with the database changing in
  -- between and the stream ending anywhere, if every table that it reads is a log: the events
  -- sent are in rising order from above the client's cursor, so none is sent twice.
  pub stream_in_order :
      (now skew : ℕ) (tables : Tables) (wakes : List Wake) (cursor : ℕ) (w : Wire)
      → AreLogs tables
      → WakeLogs wakes
      → let s = stream source batch_limit fuel now skew tables wakes cursor w in
        Follows cursor w s.cursor s.wire
  unfolding stream initial_drain
  stream_in_order now skew tables wakes cursor w l ls =
      resume-Follows (stream_loop source batch_limit fuel wakes) (λ c v. loop-Follows wakes c v ls)
        cursor w _
        (Follows-Extends (is_fresh now skew) cursor w _
          (drain_in_order source batch_limit (is_fresh now skew) tables l fuel 0 cursor w))
