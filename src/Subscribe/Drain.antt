-- ===== src/Subscribe/Drain.antt =====
-- `readBatchAndEmit` of internal/subscribe/handler.go over a log that does not change.
use mathlib.Core.List.{append-nil, append_assoc, map-append}
use hooks.Prelude.{
  ℕ, zero, suc, ◌+◌, ◌-◌, ◌≤◌, ◌<◌, ◌≡◌, refl, ap, ◌∙◌, subst, ◌⊎◌, String, List, [], ◌∷◌, ◌++◌,
  map, Bool, some, inl, inr, arith, keep, length, length-append, take, keep-append, Bool-cases,
  nat_eq,
}
use hooks.Store.Events
use hooks.Store.Events.{Event}
use hooks.Store.Events.Sequence.{IsLog}
use hooks.Store.Events.Reads.{
  pending, last_sequence, page_size_pos, read_since_lem, read_since_pages,
}
use hooks.Subscribe.{Message, event, Wire, drained, Drained, emit_batch, read_batch_and_emit}

abbrev pub messages : List Event → List Message
messages = map event

module _ (passes : Event → Bool) where
  abbrev pub after_batch : ℕ → Wire → List Event → Drained
  after_batch cursor w batch = record {
    outcome = drained;
    cursor = last_sequence cursor batch;
    wire = record {
      sent = w.sent ++ messages (keep passes batch);
      room = w.room - length (keep passes batch);
    };
  }

  emit_batch_room :
      (batch : List Event) (cursor room : ℕ) (sent : List Message)
      → length (keep passes batch) ≤ room
      → emit_batch passes cursor (record { sent = sent; room = room }) batch
        ≡ after_batch cursor (record { sent = sent; room = room }) batch
  unfolding emit_batch
  emit_batch_room [] cursor room sent h = ground (arith, append-nil sent)
  emit_batch_room (ev ∷ batch) cursor zero sent h = elim (Bool-cases (passes ev)) [
    | inr e ↦ rw (e, emit_batch) (emit_batch_room batch ev.sequence zero sent (rw e at h))
    | inl e ↦ absurd (ground arith)
  ]
  emit_batch_room (ev ∷ batch) cursor (suc room) sent h = elim (Bool-cases (passes ev)) [
    | inr e ↦ rw (e, emit_batch) (emit_batch_room batch ev.sequence (suc room) sent (rw e at h))
    | inl e ↦
        rw (e, emit_batch)
          (emit_batch_room batch ev.sequence room (sent ++ event ev ∷ []) (omega (arith, rw e at h))
            ∙ shift)
  ]
    where
      shift :
          after_batch ev.sequence (record { sent = sent ++ event ev ∷ []; room = room }) batch
          ≡ record {
            outcome = drained;
            cursor = last_sequence ev.sequence batch;
            wire = record {
              sent = sent ++ event ev ∷ messages (keep passes batch);
              room = suc room - suc (length (keep passes batch));
            };
          }
      shift = ground (arith, append_assoc sent (event ev ∷ []) (messages (keep passes batch)))

module _ (source : String) (limit : ℕ) (passes : Event → Bool) (rows : List Event)
    (log : IsLog rows) where
  abbrev page : ℕ → List Event
  page cursor = Events.read_since source cursor limit rows

  -- One page and what is pending behind it.
  module _ (cursor : ℕ) where
    page_empty : pending source cursor rows ≡ [] → page cursor ≡ []
    page_empty h =
        let (m, p) = page_size_pos limit in
        read_since_lem source cursor limit rows log ∙ rw (h, p) refl

    page_cons :
        (e : Event) (es : List Event)
        → pending source cursor rows ≡ e ∷ es
        → (more : List Event) × (page cursor ≡ e ∷ more)
          × ((e ∷ more) ++ pending source (last_sequence cursor (e ∷ more)) rows
              ≡ pending source cursor rows)
    page_cons e es h =
        let (m, p) = page_size_pos limit in
        let first : page cursor ≡ e ∷ take m es =
          read_since_lem source cursor limit rows log ∙ rw (h, p) refl in
        (
          take m es,
          first,
          subst
              (λ xs.
                xs ++ pending source (last_sequence cursor xs) rows ≡ pending source cursor rows)
              first (read_since_pages source cursor limit rows log).1,
        )

last_sequence-append :
    (cursor : ℕ) (xs ys : List Event)
    → last_sequence (last_sequence cursor xs) ys ≡ last_sequence cursor (xs ++ ys)
last_sequence-append cursor [] ys = refl
last_sequence-append cursor (x ∷ xs) ys = last_sequence-append x.sequence xs ys

after_batch-append :
    (passes : Event → Bool) (cursor : ℕ) (w : Wire) (xs ys : List Event)
    → after_batch passes (last_sequence cursor xs) (after_batch passes cursor w xs).wire ys
      ≡ after_batch passes cursor w (xs ++ ys)
after_batch-append passes cursor w xs ys = rw (keep-append passes xs ys) (
    ground (
      arith,
      last_sequence-append cursor xs ys,
      append_assoc w.sent (messages (keep passes xs)) (messages (keep passes ys)),
      map-append event (keep passes xs) (keep passes ys),
      length-append (keep passes xs) (keep passes ys),
    ))

List-cases : (xs : List Event) → (xs ≡ []) ⊎ ((e : Event) × (es : List Event) × (xs ≡ e ∷ es))
List-cases [] = inl refl
List-cases (e ∷ es) = inr (e, es, refl)

module _ (source : String) (limit : ℕ) (passes : Event → Bool) (rows : List Event)
    (log : IsLog rows) where
  -- With room on the wire for what passes and fuel above the number of pending events, a drain
  -- over a log that stays ends by finding nothing more. It has then written exactly the events
  -- of the source above the cursor that pass the filter, in order, and its cursor is the number
  -- of the last event pending, written or not.
  pub drain_complete :
      (fuel k cursor : ℕ) (w : Wire)
      → length (pending source cursor rows) < fuel
      → length (keep passes (pending source cursor rows)) ≤ w.room
      → read_batch_and_emit source limit passes fuel (λ _. some rows) k cursor w
        ≡ after_batch passes cursor w (pending source cursor rows)
  unfolding read_batch_and_emit
  drain_complete zero k cursor w f h = absurd (omega arith)
  drain_complete (suc fuel) k cursor w f h = elim (List-cases (pending source cursor rows)) [
    | inl e ↦
        rw (page_empty source limit passes rows log cursor e, read_batch_and_emit)
          (rw e (ground (arith, append-nil w.sent)))
    | inr (ev, es, e) ↦
        let (more, p, whole) = page_cons source limit passes rows log cursor ev es e in
        let rest = pending source (last_sequence cursor (ev ∷ more)) rows in
        let total : length (keep passes (ev ∷ more)) + length (keep passes rest) ≤ w.room = omega (
          arith,
          length-append (keep passes (ev ∷ more)) (keep passes rest),
          ap length (keep-append passes (ev ∷ more) rest),
          ap (λ xs. length (keep passes xs)) whole,
        ) in
        let emitted : emit_batch passes cursor w (ev ∷ more)
            ≡ after_batch passes cursor w (ev ∷ more) =
          emit_batch_room passes (ev ∷ more) cursor w.room w.sent (omega arith) in
        rw (p, emitted, read_batch_and_emit)
          (drain_complete fuel (k + 1) (last_sequence cursor (ev ∷ more))
              (after_batch passes cursor w (ev ∷ more)).wire
              (omega (arith, ap length whole, length-append more rest)) (omega arith)
            ∙ after_batch-append passes cursor w (ev ∷ more) rest
            ∙ ap (after_batch passes cursor w) whole)
  ]
