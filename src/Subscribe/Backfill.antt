-- ===== src/Subscribe/Backfill.antt =====
-- `initialDrain` of internal/subscribe/handler.go, its filter, and the live drain that follows.
use mathlib.Core.List.{append-nil}
use hooks.Prelude.{
  ℕ, ◌+◌, ◌≤◌, ◌<◌, ◌≡◌, refl, ap, ◌∙◌, ◌⊎◌, ◌↔◌, String, ℤ, pos, negsuc, pos_part, List, [], ◌++◌,
  true, some, arith, keep, length, length-keep-le,
}
use hooks.Sources.{second}
use hooks.Store.Events.{Event}
use hooks.Store.Events.Sequence.{IsLog}
use hooks.Store.Events.Reads.{pending, last_sequence, pending_done}
use hooks.Subscribe.{
  Wire, drained, Drained, is_fresh, unfiltered, initial_drain, live_drain, read_batch_and_emit,
}
use hooks.Subscribe.Drain.{messages, after_batch, drain_complete}

-- An event passes the backfill's filter exactly when its provider's time lies before the end of
-- the first second of 1970, or is no further behind now than the window.
pub is_fresh_iff :
    (now skew : ℕ) (ev : Event)
    → (is_fresh now skew ev ≡ true)
      ↔ ((pos_part ev.provider_timestamp < second) ⊎ (now ≤ pos_part ev.provider_timestamp + skew))
unfolding is_fresh
is_fresh_iff now skew ev = by ev.provider_timestamp refl
  where
    by :
        (t : ℤ)
        → ev.provider_timestamp ≡ t
        → (is_fresh now skew ev ≡ true) ↔ (
            (pos_part ev.provider_timestamp < second)
            ⊎ (now ≤ pos_part ev.provider_timestamp + skew))
    by (pos n) h = (λ q. ground arith, λ q. ground arith)
    by (negsuc n) h = (λ q. ground arith, λ q. ground arith)

module _ (source : String) (limit now skew fuel cursor : ℕ) (rows : List Event) (w : Wire) where
  abbrev pub backfilled : Drained
  backfilled = initial_drain source limit now skew fuel (λ _. some rows) cursor w

  -- With room on the wire and fuel for all that is pending, the backfill of a log sends exactly
  -- the pending events that are fresh and skips the others for good: the live drain after it,
  -- over the same log, sends nothing and stays where it is.
  pub backfill_then_live :
      IsLog rows
      → length (pending source cursor rows) < fuel
      → length (pending source cursor rows) ≤ w.room
      → (backfilled.wire.sent
          ≡ w.sent ++ messages (keep (is_fresh now skew) (pending source cursor rows)))
        × (backfilled.cursor ≡ last_sequence cursor (pending source cursor rows))
        × (live_drain source limit fuel (λ _. some rows) backfilled.cursor backfilled.wire
            ≡ backfilled)
  unfolding initial_drain live_drain
  backfill_then_live log f room =
      let todo = pending source cursor rows in
      let fits : length (keep (is_fresh now skew) todo) ≤ w.room =
        omega (arith, length-keep-le (is_fresh now skew) todo) in
      let e : backfilled ≡ after_batch (is_fresh now skew) cursor w todo =
        drain_complete source limit (is_fresh now skew) rows log fuel 0 cursor w f fits in
      let at_end : backfilled.cursor ≡ last_sequence cursor todo = ap (λ d. d.cursor) e in
      let nothing_left : pending source backfilled.cursor rows ≡ [] =
        ap (λ c. pending source c rows) at_end ∙ pending_done source cursor rows log in
      (ap (λ d. d.wire.sent) e, at_end, stays backfilled (ap (λ d. d.outcome) e) nothing_left)
    where
      stays :
          (d : Drained)
          → d.outcome ≡ drained
          → pending source d.cursor rows ≡ []
          → read_batch_and_emit source limit unfiltered fuel (λ _. some rows) 0 d.cursor d.wire ≡ d
      stays d o h =
          drain_complete source limit unfiltered rows log fuel 0 d.cursor d.wire
            (rw h (omega arith)) (rw h (omega arith))
          ∙ rw h (ground (arith, append-nil d.wire.sent))
