-- ===== src/Push/Delivery.antt =====
-- `run` of internal/push/worker.go: what a worker delivers while other clients append to the log.
use hooks.Prelude.{
  ℕ, suc, zero, ◌≡◌, refl, sym, ap, ◌∙◌, subst, inl, inr, String, List, [], ◌∷◌, ◌++◌, Bool, true,
  false, Option, none, some, arith, All, keep-append, take, Bool-cases, Option-cases, string_eq,
  nat_eq,
}
use hooks.Store.Events
use hooks.Store.Events.{Event, is_after}
use hooks.Store.Events.Sequence.{IsLog}
use hooks.Store.Events.Reads.{pending, pending_next, read_since_lem, page_size}
use hooks.Store.Push.{PushSubscription, get_push, is_active}
use hooks.Push.{
  Turn, Worker, Verdict, exits, waits, goes_on, waits_for_backoff, deliver, after_delivery,
  read_batch, attempt, with_row, turn, run, batch_size,
}
use hooks.Push.Attempts.{Sees, Reached, Reached-trans, same, rewarn, deliver-Reached}

All-append_left : (P : Event → Type 0) (xs ys : List Event) → All P (xs ++ ys) → All P xs
All-append_left P [] ys h = tt
All-append_left P (x ∷ xs) ys h = (h.0, All-append_left P xs ys h.1)

IsLog-append_left : (xs ys : List Event) → IsLog (xs ++ ys) → IsLog xs
IsLog-append_left [] ys l = tt
IsLog-append_left (x ∷ xs) ys l = (All-append_left _ xs ys l.0, l.1, IsLog-append_left xs ys l.2)

take_cons :
    (n : ℕ) (xs more : List Event) (ev : Event)
    → take n xs ≡ ev ∷ more
    → (es : List Event) × (xs ≡ ev ∷ es)
take_cons zero xs more ev h = absurd (ground arith)
take_cons (suc n) [] more ev h = absurd (ground arith)
take_cons (suc n) (x ∷ xs) more ev h = (xs, ground arith)

-- The first event of a page of an earlier table is the first that is pending in the log.
page-pending :
    (source : String) (cursor limit : ℕ) (full rows : List Event)
    → IsLog full
    → (more : List Event) × (rows ++ more ≡ full)
    → (ev : Event) (page : List Event) → Events.read_since source cursor limit rows ≡ ev ∷ page
    → (es : List Event) × (pending source cursor full ≡ ev ∷ es)
page-pending source cursor limit full rows log (more, whole) ev page h =
    let part : IsLog rows = IsLog-append_left rows more (subst IsLog (sym whole) log) in
    let (es, p) =
      take_cons (page_size limit) (pending source cursor rows) page ev
        (sym (read_since_lem source cursor limit rows part) ∙ h) in
    (
      es ++ pending source cursor more,
      sym (ap (pending source cursor) whole)
          ∙ keep-append (is_after source cursor) rows more
          ∙ ap (λ xs. xs ++ pending source cursor more) p,
    )

module _ (id target_url : String) (int63n : ℕ → ℕ) (batch : ℕ) (full : List Event)
    (log : IsLog full) where
  after_delivery-Reached :
      (t : Turn) (w : Worker) (sub : PushSubscription) (r : Bool × Worker)
      → Reached id target_url full w sub r.1
      → Reached id target_url full w sub (after_delivery id target_url int63n batch t r).1
  unfolding after_delivery
  after_delivery-Reached t w sub (true, w') r = rewarn id target_url full w sub w' _ r
  after_delivery-Reached t w sub (false, w') r = rewarn id target_url full w sub w' _ r

  module _ (t : Turn) (w : Worker) (sees : Sees full t) (sub : PushSubscription)
      (h : get_push id w.rows ≡ some sub) where
    first_page :
        (ev : Event) (page : List Event)
        → read_batch id target_url int63n batch t sub ≡ some (ev ∷ page)
        → (es : List Event) × (pending sub.source sub.cursor full ≡ ev ∷ es)
    first_page ev page p = elim (Option-cases t.table) [
      | inl e ↦ absurd (ground arith)
      | inr (rows, e) ↦
          page-pending sub.source sub.cursor (batch_size batch) full rows log (sees rows e) ev page
            (ground arith)
    ]

    attempt-Reached :
        (page : Option (List Event))
        → read_batch id target_url int63n batch t sub ≡ page
        → Reached id target_url full w sub (attempt id target_url int63n batch t w page).1
    unfolding attempt
    attempt-Reached none p = same id target_url full w sub h
    attempt-Reached (some []) p = same id target_url full w sub h
    attempt-Reached (some (ev ∷ page)) p =
        let (es, first) = first_page ev page p in
        after_delivery-Reached t w sub (deliver id target_url t ev w) (
          deliver-Reached id target_url full t w sub h ev es first
            (pending_next sub.source sub.cursor full log ev es first))

    turn-Reached : Reached id target_url full w sub (turn id target_url int63n batch t w).1
    unfolding turn with_row
    turn-Reached = elim (Bool-cases t.cancelled) [
      | inl e ↦ rw (e, turn) (same id target_url full w sub h)
      | inr e ↦ elim (Bool-cases t.get_fails) [
        | inl f ↦ rw (e, f, turn) (same id target_url full w sub h)
        | inr f ↦ rw (e, f, h, turn) row-Reached
      ]
    ]
      where
        row-Reached :
            Reached id target_url full w sub (with_row id target_url int63n batch t w (some sub)).1
        row-Reached = elim (Bool-cases (is_active sub)) [
          | inr a ↦ rw (a, with_row) (same id target_url full w sub h)
          | inl a ↦ elim (Bool-cases t.has_secret) [
            | inr k ↦ rw (a, k, with_row) (same id target_url full w sub h)
            | inl k ↦
                rw (a, k, with_row)
                  (attempt-Reached (read_batch id target_url int63n batch t sub) refl)
          ]
        ]

  -- Over any turns, with failures of every kind, signals and other clients that append, if the
  -- worker's row is in the table and every table that it reads is the beginning of one log: the
  -- events that a worker delivers are those of its source behind its cursor, in the order of
  -- the log, each once and none left out, up to the new cursor; and each of them was answered
  -- with a status from 200 to 299.
  pub run-Reached :
      (turns : List Turn) (w : Worker) (sub : PushSubscription)
      → All (Sees full) turns
      → get_push id w.rows ≡ some sub
      → Reached id target_url full w sub (run id target_url int63n batch turns w)
  unfolding run
  run-Reached [] w sub sees h = same id target_url full w sub h
  run-Reached (t ∷ turns) w sub sees h =
      let first = turn-Reached t w sees.0 sub h in
      let whole =
        Reached-trans id target_url full w sub _ _ first
          (run-Reached turns _ first.row sees.1 first.found) in
      by (turn id target_url int63n batch t w).0 first whole
    where
      by :
          (v : Verdict)
          → Reached id target_url full w sub (turn id target_url int63n batch t w).1
          → Reached id target_url full w sub
              (run id target_url int63n batch turns (turn id target_url int63n batch t w).1)
          → Reached id target_url full w sub (elim v [
            | exits ↦ (turn id target_url int63n batch t w).1
            | _ ↦ run id target_url int63n batch turns (turn id target_url int63n batch t w).1
          ])
      by exits first whole = first
      by waits first whole = whole
      by goes_on first whole = whole
      by (waits_for_backoff d) first whole = whole
