-- ===== src/Store/Events/Dedupe.antt =====
-- The dedupe check of `SQLite.Append`, and `Prune`, in internal/store/sqlite.go.
use hooks.Prelude.{
  ℕ, ◌+◌, ◌-◌, ◌≤◌, ◌<◌, ◌≡◌, refl, ap, ◌∙◌, ◌≢◌, ◌↔◌, inl, inr, String, List, [], ◌∷◌, ◌++◌, Bool,
  not, ◌&&◌, arith, ltb, leb, ◌==◌, ok, err, keep, All, take-nil, Has, any-Has, Has-any,
  Has-keep_iff, string_eq, nat_eq, length,
}
use hooks.Store.Events.{
  Event, AppendInput, duplicate, check_event_duplicate, new_event, append, prune, latest_sequence,
  read_since, is_after, latest_event_sequence,
}
use hooks.Store.Events.Sequence.{insert_new_event, append_gapless}

abbrev SameDelivery : AppendInput → ℕ → ℕ → Event → Type 0
SameDelivery inp window now e =
    (e.source ≡ inp.source) × (e.delivery_id ≡ inp.delivery_id) × (now ≤ e.received_at + window)

module _ (sha256 : List ℕ → String) (window now : ℕ) (inp : AppendInput) (rows : List Event) where
  -- An input with a source and a delivery id is refused as a duplicate exactly when a row with
  -- both was received within the window before now.
  pub append_duplicate_iff :
      inp.source ≢ ""
      → inp.delivery_id ≢ ""
      → ((append sha256 window now inp rows).0 ≡ err duplicate)
        ↔ ((e : Event) × Has e rows × SameDelivery inp window now e)
  unfolding append check_event_duplicate
  append_duplicate_iff s d = (refused, λ (e, m, p). found e m p)
    where
      hit : Event → Bool
      hit e =
          e.source == inp.source
          && e.delivery_id == inp.delivery_id
          && leb (now - window) e.received_at

      refused :
          (append sha256 window now inp rows).0 ≡ err duplicate
          → (e : Event) × Has e rows × SameDelivery inp window now e
      refused h =
          let (e, m, q) =
            any-Has hit rows (ground (arith, insert_new_event sha256 window now inp rows)) in
          (e, m, (ground arith, ground arith, ground arith))

      found :
          (e : Event)
          → Has e rows
          → SameDelivery inp window now e
          → (append sha256 window now inp rows).0 ≡ err duplicate
      found e m p = ground (arith, Has-any hit rows m (ground arith))

-- A delivery that was stored is a duplicate until the window is over: another append of its
-- source and delivery id is refused and changes nothing.
pub append_again :
    (sha256 : List ℕ → String) (window now later : ℕ) (inp again : AppendInput) (rows : List Event)
    (e : Event)
    → (append sha256 window now inp rows).0 ≡ ok e
    → again.source ≡ inp.source
    → again.delivery_id ≡ inp.delivery_id
    → later ≤ now + window
    → append sha256 window later again (append sha256 window now inp rows).1
      ≡ (err duplicate, (append sha256 window now inp rows).1)
unfolding append check_event_duplicate
append_again sha256 window now later inp again rows e h s d w = ground (
  arith,
  insert_new_event sha256 window now inp rows,
  Has-any
      (λ x.
        x.source == again.source
        && x.delivery_id == again.delivery_id
        && leb (later - window) x.received_at)
      {x = new_event sha256 now inp rows} (rows ++ new_event sha256 now inp rows ∷ []) (at_end rows)
      (unfold new_event in ground arith),
)
  where
    at_end :
        (xs : List Event)
        → Has (new_event sha256 now inp rows) (xs ++ new_event sha256 now inp rows ∷ [])
    at_end [] = inl refl
    at_end (x ∷ xs) = inr (at_end xs)

-- `Prune` keeps exactly the rows of other sources and those received at the cutoff or later; it
-- reports how many rows it took away.
pub prune_exact :
    (source : String) (cutoff : ℕ) (rows : List Event)
    → ((e : Event)
        → Has e (prune source cutoff rows).0
          ↔ (Has e rows × (e.source ≡ source → cutoff ≤ e.received_at)))
      × (length (prune source cutoff rows).0 + (prune source cutoff rows).1 ≡ length rows)
unfolding prune
prune_exact source cutoff rows = (
  λ e. (
    λ m. let (k, q) = (Has-keep_iff kept rows).0 m in (k, λ p. ground arith),
    λ (k, q). (Has-keep_iff kept rows).1 (k, ground arith),
  ),
  counted rows,
)
  where
    kept : Event → Bool
    kept e = not (e.source == source && ltb e.received_at cutoff)

    counted :
        (xs : List Event)
        → length (keep kept xs)
            + length (keep (λ e. e.source == source && ltb e.received_at cutoff) xs)
          ≡ length xs
    counted [] = omega arith
    counted (x ∷ xs) = ground (arith, counted xs)

All-pruned :
    (source : String) (cutoff : ℕ) (rows : List Event)
    → All (λ e. e.source ≡ source → e.received_at < cutoff) rows
    → latest_event_sequence source (prune source cutoff rows).0 ≡ 0
unfolding prune latest_event_sequence
All-pruned source cutoff [] h = refl
All-pruned source cutoff (e ∷ rows) h = ground (arith, All-pruned source cutoff rows h.1)

none_after :
    (source : String) (cursor : ℕ) (rows : List Event)
    → latest_event_sequence source rows ≤ cursor
    → keep (is_after source cursor) rows ≡ []
unfolding latest_event_sequence
none_after source cursor [] h = refl
none_after source cursor (e ∷ rows) h = ground (arith, none_after source cursor rows)

-- Once every row of a source has been pruned its numbers start again: the next event stored gets
-- number 1, and a reader whose cursor is 1 or more does not see it.
pub append_prune_reuses :
    (sha256 : List ℕ → String) (window now cutoff cursor limit : ℕ) (inp : AppendInput)
    (rows : List Event) (e : Event)
    → All (λ x. x.source ≡ inp.source → x.received_at < cutoff) rows
    → (append sha256 window now inp (prune inp.source cutoff rows).0).0 ≡ ok e
    → 1 ≤ cursor
    → (e.sequence ≡ 1)
      × (read_since inp.source cursor limit
            (append sha256 window now inp (prune inp.source cutoff rows).0).1
          ≡ [])
unfolding read_since latest_sequence
append_prune_reuses sha256 window now cutoff cursor limit inp rows e old h c =
    let kept = (prune inp.source cutoff rows).0 in
    let (_, number, latest, _) = append_gapless sha256 window now inp kept e h in
    let first : e.sequence ≡ 1 = number ∙ ap (λ n. n + 1) (All-pruned inp.source cutoff rows old) in
    (
      first,
      rw
          (none_after inp.source cursor (append sha256 window now inp kept).1
            (omega (arith, first, latest)))
          (take-nil _),
    )
