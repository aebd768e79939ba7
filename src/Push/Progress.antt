-- ===== src/Push/Progress.antt =====
-- `run` of internal/push/worker.go, over turns in which nothing fails.
use mathlib.Core.List.{append-nil}
use hooks.Prelude.{
  ℕ, ◌-◌, ◌≤◌, ◌≡◌, refl, sym, ap, ◌∙◌, subst, ◌≢◌, String, List, [], ◌∷◌, ◌++◌, Bool, true, false,
  some, arith, All, All-imp, take, take-nil, drop, string_eq, nat_eq, length,
}
use hooks.Store.Events.{Event}
use hooks.Store.Events.Sequence.{IsLog}
use hooks.Store.Events.Reads.{pending, pending_next, read_since_lem, page_size, page_size_pos}
use hooks.Store.Push.{PushSubscription, get_push, is_active, update_cursor_and_success}
use hooks.Store.Push.Lookups.{get-update_cursor_and_success}
use hooks.Push.{
  Turn, Worker, Verdict, exits, waits, goes_on, waits_for_backoff, note_success, deliver, judge,
  after_delivery, read_batch, attempt, with_row, turn, run, is_success, batch_size,
}
use hooks.Push.Attempts.{Sees}
use hooks.Push.Delivery.{run-Reached}

-- Nothing fails in the turn, and the target answers with success.
pub record IsGood (full : List Event) (t : Turn) : Type 0 where
  pub running : t.cancelled ≡ false
  pub got : t.get_fails ≡ false
  pub secret : t.has_secret ≡ true
  pub table : t.table ≡ some full
  pub built : t.request_fails ≡ false
  pub status : ℕ
  pub answered : t.status ≡ some status
  pub success : is_success status ≡ true
  pub written : t.write_fails ≡ false

IsGood-Sees :
    (full : List Event) (turns : List Turn) → All (IsGood full) turns → All (Sees full) turns
IsGood-Sees full turns = All-imp turns λ t g rows h. ([], append-nil rows ∙ ground (arith, g.table))

module _ (id target_url : String) (int63n : ℕ → ℕ) (batch : ℕ) (full : List Event)
    (log : IsLog full) (target : target_url ≢ "") where
  -- Where a good turn leaves the row: one pending event further.
  record Next (w : Worker) (sub : PushSubscription) (r : Verdict × Worker) : Type 0 where
    pub row : PushSubscription
    pub found : get_push id r.1.rows ≡ some row
    pub source : row.source ≡ sub.source
    pub active : is_active row ≡ is_active sub
    pub further : pending sub.source row.cursor full ≡ drop 1 (pending sub.source sub.cursor full)
    pub goes : r.0 ≢ exits

  module _ (t : Turn) (w : Worker) (g : IsGood full t) (sub : PushSubscription)
      (h : get_push id w.rows ≡ some sub) where
    deliver_good : (ev : Event) → (deliver id target_url t ev w).0 ≡ true
    unfolding deliver judge note_success
    deliver_good ev = ground (
      arith,
      target,
      g.built,
      g.answered,
      g.success,
      g.written,
      (get-update_cursor_and_success id t.now w.rows sub h ev.sequence).0,
    )

    deliver_rows :
        (ev : Event)
        → (deliver id target_url t ev w).1.rows
          ≡ (update_cursor_and_success id ev.sequence t.now w.rows).1
    unfolding deliver judge note_success
    deliver_rows ev = ground (
      arith,
      target,
      g.built,
      g.answered,
      g.success,
      g.written,
      (get-update_cursor_and_success id t.now w.rows sub h ev.sequence).0,
    )

    after_good :
        (r : Bool × Worker)
        → r.0 ≡ true
        → let s = after_delivery id target_url int63n batch t r in
          (s.0 ≡ goes_on) × (s.1.rows ≡ r.1.rows)
    unfolding after_delivery
    after_good (true, w') e = (refl, refl)
    after_good (false, w') e = absurd (ground arith)

    attempt_good :
        (ev : Event) (page es : List Event)
        → pending sub.source sub.cursor full ≡ ev ∷ es
        → Next w sub (attempt id target_url int63n batch t w (some (ev ∷ page)))
    unfolding attempt
    attempt_good ev page es first =
        let (goes, rows) = after_good (deliver id target_url t ev w) (deliver_good ev) in
        record {
          row = _;
          found =
              ap (get_push id) (rows ∙ deliver_rows ev)
              ∙ (get-update_cursor_and_success id t.now w.rows sub h ev.sequence).1;
          source = refl;
          active = refl;
          further =
              pending_next sub.source sub.cursor full log ev es first ∙ sym (ap (drop 1) first);
          goes = λ e. ground (arith, goes);
        }

    read_page :
        read_batch id target_url int63n batch t sub
        ≡ some (take (page_size (batch_size batch)) (pending sub.source sub.cursor full))
    read_page =
        rw g.table (ap some (read_since_lem sub.source sub.cursor (batch_size batch) full log))

    page_good :
        (todo : List Event)
        → pending sub.source sub.cursor full ≡ todo
        → Next w sub
            (attempt id target_url int63n batch t w (read_batch id target_url int63n batch t sub))
    unfolding attempt
    page_good [] p =
        let none_read : read_batch id target_url int63n batch t sub ≡ some [] =
          read_page
          ∙ ap (λ xs. some (take (page_size (batch_size batch)) xs)) p
          ∙ ap some (take-nil _) in
        rw none_read (record {
          row = sub;
          found = h;
          source = refl;
          active = refl;
          further = p ∙ sym (ap (drop 1) p);
          goes = λ e. cc;
        })
    page_good (ev ∷ es) p =
        let (m, size) = page_size_pos (batch_size batch) in
        let some_read : read_batch id target_url int63n batch t sub ≡ some (ev ∷ take m es) =
          read_page
          ∙ ap (λ xs. some (take (page_size (batch_size batch)) xs)) p
          ∙ ap (λ n. some (take n (ev ∷ es))) size in
        rw some_read (attempt_good ev (take m es) es p)

    turn_good : is_active sub ≡ true → Next w sub (turn id target_url int63n batch t w)
    unfolding turn with_row
    turn_good a =
        rw (g.running, g.got, h, turn)
          (rw (a, g.secret, with_row) (page_good (pending sub.source sub.cursor full) refl))

  -- The turns empty what is pending, one event for each turn.
  empties :
      (turns : List Turn) (w : Worker) (sub : PushSubscription)
      → All (IsGood full) turns
      → get_push id w.rows ≡ some sub
      → is_active sub ≡ true
      → length (pending sub.source sub.cursor full) ≤ length turns
      → (row : PushSubscription) × (get_push id (run id target_url int63n batch turns w).rows
          ≡ some row)
        × (pending sub.source row.cursor full ≡ [])
  unfolding run
  empties [] w sub good h a enough =
      (sub, h, nil_of_length (pending sub.source sub.cursor full) enough)
    where
      nil_of_length : (xs : List Event) → length xs ≤ 0 → xs ≡ []
      nil_of_length [] h = refl
      nil_of_length (x ∷ xs) h = absurd (omega arith)
  empties (t ∷ turns) w sub good h a enough =
      let n = turn_good t w good.0 sub h a in
      let rest : length (pending sub.source n.row.cursor full) ≤ length turns =
        omega (arith, ap length n.further, length-drop (pending sub.source sub.cursor full)) in
      let (row, found, empty) =
        empties turns (turn id target_url int63n batch t w).1 n.row good.1 n.found (n.active ∙ a)
          (subst (λ s. length (pending s n.row.cursor full) ≤ length turns) (sym n.source) rest) in
      (
        row,
        goes_on_with (turn id target_url int63n batch t w).0 n.goes row found,
        subst (λ s. pending s row.cursor full ≡ []) n.source empty,
      )
    where
      length-drop : (xs : List Event) → length (drop 1 xs) ≡ length xs - 1
      length-drop [] = omega arith
      length-drop (x ∷ xs) = omega arith

      goes_on_with :
          (v : Verdict)
          → v ≢ exits
          → (row : PushSubscription)
          → get_push id
              (run id target_url int63n batch turns (turn id target_url int63n batch t w).1).rows
            ≡ some row
          → let next : Worker = elim v [
            | exits ↦ (turn id target_url int63n batch t w).1
            | _ ↦ run id target_url int63n batch turns (turn id target_url int63n batch t w).1
          ] in
            get_push id next.rows ≡ some row
      goes_on_with exits g row found = absurd (g refl)
      goes_on_with waits g row found = found
      goes_on_with goes_on g row found = found
      goes_on_with (waits_for_backoff d) g row found = found

  -- For a row that is not paused and a target URL that is not empty: if nothing fails over a
  -- log that stays and the target answers with success, as many turns as there are pending
  -- events deliver all of them, in order, and leave nothing pending.
  pub run_delivers :
      (turns : List Turn) (w : Worker) (sub : PushSubscription)
      → All (IsGood full) turns
      → get_push id w.rows ≡ some sub
      → is_active sub ≡ true
      → length (pending sub.source sub.cursor full) ≤ length turns
      → let w' = run id target_url int63n batch turns w in
        (w'.delivered ≡ w.delivered ++ pending sub.source sub.cursor full)
        × (row : PushSubscription) × (get_push id w'.rows ≡ some row)
        × (pending sub.source row.cursor full ≡ [])
  run_delivers turns w sub good h a enough =
      let (row, found, empty) = empties turns w sub good h a enough in
      let r =
        run-Reached id target_url int63n batch full log turns w sub (IsGood-Sees full turns good)
          h in
      let one : r.row ≡ row = ground (arith, r.found) in
      let all : r.done ≡ pending sub.source sub.cursor full =
        sym (append-nil r.done)
        ∙ ap (◌++◌ r.done) (sym (ap (λ x. pending sub.source x.cursor full) one ∙ empty))
        ∙ r.joined in
      (r.delivered ∙ ap (◌++◌ w.delivered) all, row, found, empty)
