-- ===== src/Push/Attempts.antt =====
-- `deliver` of internal/push/worker.go: where a delivery attempt leaves the worker.
use mathlib.Core.List.{append-nil, append_assoc}
use hooks.Prelude.{
  ℕ, ◌≤◌, ◌<◌, ◌≡◌, refl, sym, ap, ◌∙◌, subst, inl, inr, String, List, [], ◌∷◌, ◌++◌, Bool, ◌||◌,
  some, arith, ◌==◌, All, All-append, All-imp, Has, Bool-cases, Option-cases, string_eq, nat_eq,
}
use hooks.Store.Events.{Event}
use hooks.Store.Events.Reads.{pending}
use hooks.Store.Push.{PushSubscription, get_push, is_active}
use hooks.Store.Push.Lookups.{get-record_failure, get-update_cursor_and_success}
use hooks.Push.{Turn, Worker, note_failure, note_success, judge, hear, deliver, is_success}

-- What the table was when it was read is the beginning of the final log.
abbrev pub Sees : List Event → Turn → Type 0
Sees full t =
    (rows : List Event) → t.table ≡ some rows → (more : List Event) × (rows ++ more ≡ full)

-- The event was posted and answered with a status from 200 to 299.
abbrev pub Succeeded : List (Event × ℕ) → Event → Type 0
Succeeded heard e = (status : ℕ) × Has (e, status) heard × ((200 ≤ status) × (status < 300))

module _ (id target_url : String) (full : List Event) where
  -- From a worker whose row is `sub`: the events `done` were delivered, all of them answered with
  -- success, and what is pending behind the new cursor is what was pending before, less those.
  pub record Reached (w : Worker) (sub : PushSubscription) (w' : Worker) : Type 0 where
    pub row : PushSubscription
    pub found : get_push id w'.rows ≡ some row
    pub source : row.source ≡ sub.source
    pub active : is_active row ≡ is_active sub
    pub done : List Event
    pub heard : List (Event × ℕ)
    pub delivered : w'.delivered ≡ w.delivered ++ done
    pub answers : w'.answers ≡ w.answers ++ heard
    pub all_heard : All (Succeeded heard) done
    pub joined : done ++ pending sub.source row.cursor full ≡ pending sub.source sub.cursor full

  Has-right : (e : Event × ℕ) (xs ys : List (Event × ℕ)) → Has e ys → Has e (xs ++ ys)
  Has-right e [] ys h = h
  Has-right e (x ∷ xs) ys h = inr (Has-right e xs ys h)

  Has-left : (e : Event × ℕ) (xs ys : List (Event × ℕ)) → Has e xs → Has e (xs ++ ys)
  Has-left e [] ys h = absurd h
  Has-left e (x ∷ xs) ys (inl h) = inl h
  Has-left e (x ∷ xs) ys (inr h) = inr (Has-left e xs ys h)

  pub Reached-trans :
      (w : Worker) (sub : PushSubscription) (w' w'' : Worker)
      → (r : Reached w sub w') → Reached w' r.row w''
      → Reached w sub w''
  Reached-trans w sub w' w'' r q = record {
    row = q.row;
    found = q.found;
    source = q.source ∙ r.source;
    active = q.active ∙ r.active;
    done = r.done ++ q.done;
    heard = r.heard ++ q.heard;
    delivered =
        q.delivered ∙ ap (λ d. d ++ q.done) r.delivered ∙ append_assoc w.delivered r.done q.done;
    answers = q.answers ∙ ap (λ d. d ++ q.heard) r.answers ∙ append_assoc w.answers r.heard q.heard;
    all_heard =
        All-append _ r.done q.done
          (All-imp r.done (λ e h. (h.0, Has-left (e, h.0) r.heard q.heard h.1, h.2)) r.all_heard)
          (All-imp q.done (λ e h. (h.0, Has-right (e, h.0) r.heard q.heard h.1, h.2)) q.all_heard);
    joined =
        append_assoc r.done q.done (pending sub.source q.row.cursor full)
        ∙ ap (◌++◌ r.done) (
            subst (λ s. q.done ++ pending s q.row.cursor full ≡ pending s r.row.cursor full)
              r.source q.joined)
        ∙ r.joined;
  }

  -- The row's cursor and what was delivered stay.
  stay :
      (w : Worker) (sub : PushSubscription) (w' : Worker) (row : PushSubscription)
      (heard : List (Event × ℕ))
      → get_push id w'.rows ≡ some row
      → row.source ≡ sub.source
      → is_active row ≡ is_active sub
      → row.cursor ≡ sub.cursor
      → w'.delivered ≡ w.delivered
      → w'.answers ≡ w.answers ++ heard
      → Reached w sub w'
  stay w sub w' row heard found source active cursor delivered answers = record {
    row = row;
    found = found;
    source = source;
    active = active;
    done = [];
    heard = heard;
    delivered = delivered ∙ sym (append-nil w.delivered);
    answers = answers;
    all_heard = tt;
    joined = ap (λ c. pending sub.source c full) cursor;
  }

  pub same : (w : Worker) (sub : PushSubscription) → get_push id w.rows ≡ some sub → Reached w sub w
  same w sub h = stay w sub w sub [] h refl refl refl refl (sym (append-nil w.answers))

  module _ (t : Turn) (w : Worker) (sub : PushSubscription)
      (h : get_push id w.rows ≡ some sub) where
    note_failure-Reached : Reached w sub (note_failure id target_url t w)
    unfolding note_failure
    note_failure-Reached = elim (Bool-cases t.write_fails) [
      | inl e ↦ rw (e, note_failure) (same w sub h)
      | inr e ↦
          rw (e, note_failure)
            (stay w sub _ _ [] (get-record_failure id t.now w.rows sub h t.message) refl refl refl
              refl (sym (append-nil w.answers)))
    ]

    -- Over the worker that has heard a status.
    judge-Reached :
        (ev : Event) (status : ℕ) (es : List Event)
        → pending sub.source sub.cursor full ≡ ev ∷ es
        → pending sub.source ev.sequence full ≡ es
        → Reached w sub (judge id target_url t ev status (hear id target_url ev status w)).1
    unfolding judge note_success note_failure
    judge-Reached ev status es first next = elim (Bool-cases (is_success status)) [
      | inr g ↦ elim (Bool-cases t.write_fails) [
        | inl e ↦ rw (g, e, judge, note_failure) only_heard
        | inr e ↦
            rw (g, e, judge, note_failure)
              (stay w sub _ _ heard (get-record_failure id t.now w.rows sub h t.message) refl refl
                refl refl refl)
      ]
      | inl g ↦ elim (Bool-cases t.write_fails) [
        | inl e ↦ rw (g, e, judge, note_success) only_heard
        | inr e ↦
            let (wrote, found) = get-update_cursor_and_success id t.now w.rows sub h ev.sequence in
            rw (g, e, judge, note_success)
              (rw wrote (record {
                row = _;
                found = found;
                source = refl;
                active = refl;
                done = ev ∷ [];
                heard = heard;
                delivered = refl;
                answers = refl;
                all_heard = ((status, inl refl, (ground arith, ground arith)), tt);
                joined = ap (◌∷◌ ev) next ∙ sym first;
              }))
      ]
    ]
      where
        heard : List (Event × ℕ)
        heard = (ev, status) ∷ []

        only_heard : Reached w sub (hear id target_url ev status w)
        only_heard = stay w sub _ sub heard h refl refl refl refl refl

    pub deliver-Reached :
        (ev : Event) (es : List Event)
        → pending sub.source sub.cursor full ≡ ev ∷ es
        → pending sub.source ev.sequence full ≡ es
        → Reached w sub (deliver id target_url t ev w).1
    unfolding deliver
    deliver-Reached ev es first next = elim (Bool-cases (target_url == "" || t.request_fails)) [
      | inl e ↦ rw (e, deliver) note_failure-Reached
      | inr e ↦ elim (Option-cases t.status) [
        | inl s ↦ rw (e, s, deliver) note_failure-Reached
        | inr (status, s) ↦ rw (e, s, deliver) (judge-Reached ev status es first next)
      ]
    ]

  pub rewarn :
      (w : Worker) (sub : PushSubscription) (w' : Worker) (b : Bool)
      → Reached w sub w'
      → Reached w sub (record w' { warned = b })
  rewarn w sub w' b r = record {
    row = r.row;
    found = r.found;
    source = r.source;
    active = r.active;
    done = r.done;
    heard = r.heard;
    delivered = r.delivered;
    answers = r.answers;
    all_heard = r.all_heard;
    joined = r.joined;
  }
