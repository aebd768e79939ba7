-- ===== src/Subscribe/Order.antt =====
-- `readBatchAndEmit` of internal/subscribe/handler.go over a database that changes between its
-- rounds, however it ends.
use mathlib.Core.List.{append-nil, append_assoc, map-append}
use hooks.Prelude.{
  ℕ, zero, suc, ◌+◌, ◌≤◌, ◌<◌, ◌≡◌, refl, sym, ap, ◌∙◌, ◌⊎◌, inl, inr, String, List, [], ◌∷◌, ◌++◌,
  Bool, true, Option, none, some, arith, All, All-append, Bool-cases, Option-cases, subst,
}
use hooks.Store.Events.{Event}
use hooks.Store.Events.Sequence.{IsLog}
use hooks.Store.Events.Reads.{last_sequence, read_since_pages, IsRising, IsRising-append}
use hooks.Subscribe.{
  event, Wire, write, read, Outcome, drained, store_error, write_error, out_of_fuel, Drained,
  emit_batch, unless_failed, read_batch_and_emit,
}
use hooks.Subscribe.Drain.{messages}

module _ (passes : Event → Bool) where
  -- The drain wrote events that pass the filter, in rising order from above the cursor, and the
  -- new cursor is at or behind none of them.
  pub record Extends (cursor : ℕ) (w : Wire) (d : Drained) : Type 0 where
    pub written : List Event
    pub sent : d.wire.sent ≡ w.sent ++ messages written
    pub rising : IsRising cursor written
    pub reached : last_sequence cursor written ≤ d.cursor
    pub passed : All (λ e. passes e ≡ true) written

  nothing :
      (cursor next : ℕ) (w : Wire) (d : Drained)
      → d.wire ≡ w
      → cursor ≤ next
      → d.cursor ≡ next
      → Extends cursor w d
  nothing cursor next w d h le c = record {
    written = [];
    sent = ground (arith, append-nil w.sent);
    rising = tt;
    reached = omega (arith, c);
    passed = tt;
  }

  pub last-append :
      (cursor next end : ℕ) (xs ys : List Event)
      → last_sequence cursor xs ≤ next
      → last_sequence next ys ≤ end
      → next ≤ end
      → last_sequence cursor (xs ++ ys) ≤ end
  last-append cursor next end [] [] h k m = omega arith
  last-append cursor next end [] (y ∷ ys) h k m = k
  last-append cursor next end (x ∷ xs) ys h k m = last-append x.sequence next end xs ys h k m

  pub rising-le :
      (cursor : ℕ) (xs : List Event) → IsRising cursor xs → cursor ≤ last_sequence cursor xs
  rising-le cursor [] r = omega arith
  rising-le cursor (x ∷ xs) r = omega (arith, r.0, rising-le x.sequence xs r.1)

  -- One drain after another.
  pub Extends-trans :
      (cursor : ℕ) (w : Wire) (d d' : Drained)
      → Extends cursor w d
      → Extends d.cursor d.wire d'
      → Extends cursor w d'
  Extends-trans cursor w d d' x y = record {
    written = x.written ++ y.written;
    sent =
        y.sent
        ∙ ap (λ s. s ++ messages y.written) x.sent
        ∙ append_assoc w.sent (messages x.written) (messages y.written)
        ∙ ap (◌++◌ w.sent) (sym (map-append event x.written y.written));
    rising = IsRising-append cursor d.cursor x.written y.written x.rising x.reached y.rising;
    reached =
        last-append cursor d.cursor d'.cursor x.written y.written x.reached y.reached
          (omega (arith, rising-le d.cursor y.written y.rising, y.reached));
    passed = All-append _ x.written y.written x.passed y.passed;
  }

  skip :
      (cursor : ℕ) (ev : Event) (w : Wire) (d : Drained)
      → cursor < ev.sequence
      → Extends ev.sequence w d
      → Extends cursor w d
  skip cursor ev w d h x =
      Extends-trans cursor w (record { outcome = drained; cursor = ev.sequence; wire = w }) d
        (nothing cursor ev.sequence w _ refl (omega arith) refl) x

  one :
      (cursor : ℕ) (ev : Event) (w w' : Wire)
      → cursor < ev.sequence
      → passes ev ≡ true
      → write (event ev) w ≡ some w'
      → Extends cursor w (record { outcome = drained; cursor = ev.sequence; wire = w' })
  unfolding write
  one cursor ev w w' h p q = record {
    written = ev ∷ [];
    sent = ground arith;
    rising = (h, tt);
    reached = omega arith;
    passed = (p, tt);
  }

  emit_batch-Extends :
      (cursor : ℕ) (w : Wire) (batch : List Event)
      → IsRising cursor batch
      → Extends cursor w (emit_batch passes cursor w batch)
  unfolding emit_batch
  emit_batch-Extends cursor w [] r = nothing cursor cursor w _ refl (omega arith) refl
  emit_batch-Extends cursor w (ev ∷ batch) r = elim (Bool-cases (passes ev)) [
    | inr e ↦
        rw (e, emit_batch) (skip cursor ev w _ r.0 (emit_batch-Extends ev.sequence w batch r.1))
    | inl e ↦ elim (Option-cases (write (event ev) w)) [
      | inl p ↦
          rw (e, emit_batch) (rw p (nothing cursor ev.sequence w _ refl (omega (arith, r.0)) refl))
      | inr (w', p) ↦
          rw (e, emit_batch)
            (rw p (
              Extends-trans cursor w _ _ (one cursor ev w w' r.0 e p)
                (emit_batch-Extends ev.sequence w' batch r.1)))
    ]
  ]

page_cases :
    (r : Option (List Event))
    → (r ≡ none) ⊎ ((r ≡ some []) ⊎ ((e : Event) × (es : List Event) × (r ≡ some (e ∷ es))))
page_cases none = inl refl
page_cases (some []) = inr (inl refl)
page_cases (some (e ∷ es)) = inr (inr (e, es, refl))

module _ (source : String) (limit : ℕ) (passes : Event → Bool) (tables : ℕ → Option (List Event))
    (logs : (k : ℕ) (rows : List Event) → tables k ≡ some rows → IsLog rows) where
  page-IsRising :
      (k cursor : ℕ) (page : List Event)
      → read source limit passes (tables k) cursor ≡ some page
      → IsRising cursor page
  page-IsRising k cursor page h = elim (Option-cases (tables k)) [
    | inl e ↦ absurd (ground arith)
    | inr (rows, e) ↦
        subst (IsRising cursor) (ground arith)
          (read_since_pages source cursor limit rows (logs k rows e)).0
  ]

  -- Whatever the logs between the rounds, the room on the wire and the fuel: a drain adds to
  -- what was sent only events that pass the filter, in rising order from above its cursor, and
  -- leaves its cursor at or above all of them. So no event is sent twice by drains that follow
  -- one another.
  pub drain_in_order :
      (fuel k cursor : ℕ) (w : Wire)
      → Extends passes cursor w (read_batch_and_emit source limit passes fuel tables k cursor w)
  unfolding read_batch_and_emit
  drain_in_order zero k cursor w = nothing passes cursor cursor w _ refl (omega arith) refl
  drain_in_order (suc fuel) k cursor w =
      elim (page_cases (read source limit passes (tables k) cursor)) [
        | inl e ↦
            rw (e, read_batch_and_emit) (nothing passes cursor cursor w _ refl (omega arith) refl)
        | inr (inl e) ↦
            rw (e, read_batch_and_emit) (nothing passes cursor cursor w _ refl (omega arith) refl)
        | inr (inr (ev, es, e)) ↦
            rw (e, read_batch_and_emit)
              (next_round fuel k cursor w (drain_in_order fuel (k + 1))
                (emit_batch passes cursor w (ev ∷ es))
                (emit_batch-Extends passes cursor w (ev ∷ es) (page-IsRising k cursor (ev ∷ es) e)))
      ]
    where
      next_round :
          (fuel k cursor : ℕ) (w : Wire)
          → ((c : ℕ) (v : Wire)
              → Extends passes c v
                  (read_batch_and_emit source limit passes fuel tables (k + 1) c v))
          → (d : Drained) → Extends passes cursor w d
          → Extends passes cursor w
              (unless_failed (read_batch_and_emit source limit passes fuel tables (k + 1)) d)
      next_round fuel k cursor w ih d x = go d.outcome refl
        where
          go :
              (o : Outcome)
              → d.outcome ≡ o
              → Extends passes cursor w
                  (unless_failed (read_batch_and_emit source limit passes fuel tables (k + 1)) d)
          go drained h =
              rw (h, unless_failed) (Extends-trans passes cursor w d _ x (ih d.cursor d.wire))
          go store_error h = rw (h, unless_failed) x
          go write_error h = rw (h, unless_failed) x
          go out_of_fuel h = rw (h, unless_failed) x
