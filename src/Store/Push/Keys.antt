-- ===== src/Store/Push/Keys.antt =====
-- The push subscriptions of internal/store/sqlite.go: the calls that change them, and their ids.
use mathlib.Core.Option.{bind}
use hooks.Prelude.{
  ℕ, ◌≡◌, refl, sym, subst, ◌≢◌, inl, inr, String, [], ◌∷◌, ◌++◌, Bool, true, false, not, ◌&&◌,
  ◌||◌, Option, some, arith, if◌then◌else◌, Result, ok, err, keep, any, find?, All, All-append,
  All-keep, string_eq, nat_eq, Bool-cases,
}
use hooks.Store.Rows.{
  StoreError, constraint_failed, set_where, update_where, delete_where, update_where-rows,
  delete_where-rows,
}
use hooks.Store.Push.{
  PushSubscription, Table, has_id, owner_known, created, insert_push, update_cursor_and_success,
  record_failure, pause_push, resume_push, rotate_push_secret, delete_push, pause_push_by_owner,
  update_push_owner,
}

-- A call that changes the table.
pub data Change : Type 0 where
  inserts : PushSubscription → Change
  advances : String → ℕ → ℕ → Change
  fails : String → ℕ → String → Change
  pauses : String → ℕ → Change
  resumes : String → Change
  rotates : String → String → Change
  deletes : String → Change
  pauses_owner : String → ℕ → Change
  reassigns : String → Option String → Change

unfoldable pub change : (String → Bool) → Change → Table → Table
unfolding insert_push update_cursor_and_success record_failure pause_push resume_push
    rotate_push_secret delete_push pause_push_by_owner update_push_owner
change is_user (inserts sub) rows = (insert_push is_user sub rows).1
change is_user (advances id cursor now) rows = (update_cursor_and_success id cursor now rows).1
change is_user (fails id now message) rows = (record_failure id now message rows).1
change is_user (pauses id now) rows = (pause_push id now rows).1
change is_user (resumes id) rows = (resume_push id rows).1
change is_user (rotates id hash) rows = (rotate_push_secret id hash rows).1
change is_user (deletes id) rows = (delete_push id rows).1
change is_user (pauses_owner owner now) rows = (pause_push_by_owner owner now rows).0
change is_user (reassigns id owner) rows = (update_push_owner is_user id owner rows).1

-- No two rows have one id.
abbrev pub IsKeyed : Table → Type 0
IsKeyed [] = Unit {0}
IsKeyed (sub ∷ rows) = All (λ x. x.id ≢ sub.id) rows × IsKeyed rows

module _ (p : PushSubscription → Bool) (f : PushSubscription → PushSubscription)
    (same : (x : PushSubscription) → (f x).id ≡ x.id) where
  All-set_where :
      (id : String) (rows : Table)
      → All (λ x. x.id ≢ id) rows
      → All (λ x. x.id ≢ id) (set_where p f rows)
  All-set_where id [] h = tt
  All-set_where id (x ∷ rows) h = (ground (arith, h.0, same x), All-set_where id rows h.1)

  set_where-IsKeyed : (rows : Table) → IsKeyed rows → IsKeyed (set_where p f rows)
  set_where-IsKeyed [] k = tt
  set_where-IsKeyed (x ∷ rows) k = elim (Bool-cases (p x)) [
    | inl e ↦ rw (e, same x) (All-set_where x.id rows k.0, set_where-IsKeyed rows k.1)
    | inr e ↦ rw e (All-set_where x.id rows k.0, set_where-IsKeyed rows k.1)
  ]

  pub find-set_where :
      (id : String) (rows : Table)
      → find? (has_id id) (set_where p f rows)
        ≡ bind (find? (has_id id) rows) (λ x. some (if p x then f x else x))
  unfolding bind
  find-set_where id [] = refl
  find-set_where id (x ∷ rows) = ground (arith, same x, find-set_where id rows)

keep-IsKeyed : (p : PushSubscription → Bool) (rows : Table) → IsKeyed rows → IsKeyed (keep p rows)
keep-IsKeyed p [] k = tt
keep-IsKeyed p (x ∷ rows) k =
    ground (arith, All-keep (λ y. y.id ≢ x.id) p rows k.0, keep-IsKeyed p rows k.1)

append-IsKeyed :
    (sub : PushSubscription) (rows : Table)
    → any (has_id sub.id) rows ≡ false
    → IsKeyed rows
    → (new : PushSubscription) → new.id ≡ sub.id
    → IsKeyed (rows ++ new ∷ [])
append-IsKeyed sub [] h k new e = (tt, tt)
append-IsKeyed sub (x ∷ rows) h k new e =
    let other : x.id ≢ sub.id = ground arith in
    (
      All-append _ rows (new ∷ []) k.0 (ground arith, tt),
      append-IsKeyed sub rows (ground arith) k.1 new e,
    )

insert_push-IsKeyed :
    (is_user : String → Bool) (sub : PushSubscription) (rows : Table)
    → IsKeyed rows
    → IsKeyed (insert_push is_user sub rows).1
unfolding insert_push
insert_push-IsKeyed is_user sub rows k =
    by (any (has_id sub.id) rows) refl (not (owner_known is_user sub.owner_user_id))
  where
    by :
        (taken : Bool)
        → any (has_id sub.id) rows ≡ taken
        → (unknown : Bool)
        → let r : Result StoreError Unit × Table =
            if taken || unknown
            then (err constraint_failed, rows)
            else (ok tt, rows ++ created sub ∷ []) in
          IsKeyed r.1
    by true h unknown = k
    by false h true = k
    by false h false = append-IsKeyed sub rows h k (created sub) refl

update_where-IsKeyed :
    (p : PushSubscription → Bool) (f : PushSubscription → PushSubscription)
    → ((x : PushSubscription) → (f x).id ≡ x.id)
    → (rows : Table) → IsKeyed rows
    → IsKeyed (update_where p f rows).1
update_where-IsKeyed p f same rows k =
    subst IsKeyed (sym (update_where-rows p f rows)) (set_where-IsKeyed p f same rows k)

delete_where-IsKeyed :
    (p : PushSubscription → Bool) (rows : Table) → IsKeyed rows → IsKeyed (delete_where p rows).1
delete_where-IsKeyed p rows k =
    subst IsKeyed (sym (delete_where-rows p rows)) (keep-IsKeyed (λ x. not (p x)) rows k)

update_push_owner-IsKeyed :
    (is_user : String → Bool) (id : String) (owner : Option String) (rows : Table)
    → IsKeyed rows
    → IsKeyed (update_push_owner is_user id owner rows).1
unfolding update_push_owner
update_push_owner-IsKeyed is_user id owner rows k =
    by (any (has_id id) rows && not (owner_known is_user owner))
  where
    by :
        (refused : Bool)
        → IsKeyed
            (if refused
              then (err constraint_failed, rows)
              else update_where (has_id id) (λ sub. record sub { owner_user_id = owner }) rows).1
    by true = k
    by false = update_where-IsKeyed _ _ (λ x. refl) rows k

-- Every call that changes the table keeps the ids of its rows apart.
pub change-IsKeyed :
    (is_user : String → Bool) (c : Change) (rows : Table)
    → IsKeyed rows
    → IsKeyed (change is_user c rows)
unfolding change
change-IsKeyed is_user (inserts sub) rows k = insert_push-IsKeyed is_user sub rows k
change-IsKeyed is_user (advances id cursor now) rows k = update_where-IsKeyed _ _ (λ x. refl) rows k
change-IsKeyed is_user (fails id now message) rows k = update_where-IsKeyed _ _ (λ x. refl) rows k
change-IsKeyed is_user (pauses id now) rows k = update_where-IsKeyed _ _ (λ x. refl) rows k
change-IsKeyed is_user (resumes id) rows k = update_where-IsKeyed _ _ (λ x. refl) rows k
change-IsKeyed is_user (rotates id hash) rows k = update_where-IsKeyed _ _ (λ x. refl) rows k
change-IsKeyed is_user (deletes id) rows k = delete_where-IsKeyed _ rows k
change-IsKeyed is_user (pauses_owner owner now) rows k = set_where-IsKeyed _ _ (λ x. refl) rows k
change-IsKeyed is_user (reassigns id owner) rows k =
    update_push_owner-IsKeyed is_user id owner rows k
