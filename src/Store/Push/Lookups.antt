-- ===== src/Store/Push/Lookups.antt =====
-- The push subscriptions of internal/store/sqlite.go: looking an id up after a call.
use mathlib.Core.Option.{bind}
use hooks.Prelude.{
  ℕ, ◌+◌, ◌≡◌, refl, ◌∙◌, ap, inl, inr, String, [], ◌∷◌, ◌++◌, Bool, true, false, not, ◌&&◌, Option,
  none, some, arith, if◌then◌else◌, ok, keep, any, find?, string_eq, nat_eq, Option-cases,
  take_text,
}
use hooks.Store.Rows.{update_where, update_where-rows, delete_where-rows, update_where-not_found}
use hooks.Store.Push.{
  PushSubscription, Table, has_id, is_active, owned_by, owner_known, created, insert_push, get_push,
  update_cursor_and_success, record_failure, update_push_owner,
}
use hooks.Store.Push.Keys.{
  Change, inserts, advances, fails, pauses, resumes, rotates, deletes, pauses_owner, reassigns,
  change, find-set_where,
}

-- What a call on existing rows makes of one row; `none` deletes it.
abbrev pub row_after : (String → Bool) → Change → PushSubscription → Option PushSubscription
row_after is_user (inserts new) sub = some sub
row_after is_user (advances id cursor now) sub = some (
    if has_id id sub
    then record sub {
      cursor = cursor;
      last_attempt_at = some now;
      last_success_at = some now;
      last_error = "";
      consecutive_failures = 0;
    }
    else sub)
row_after is_user (fails id now message) sub = some (
    if has_id id sub
    then record sub {
      last_attempt_at = some now;
      last_error = take_text 1024 message;
      consecutive_failures = sub.consecutive_failures + 1;
    }
    else sub)
row_after is_user (pauses id now) sub =
    some (if has_id id sub && is_active sub then record sub { paused_at = some now } else sub)
row_after is_user (resumes id) sub =
    some (if has_id id sub then record sub { paused_at = none } else sub)
row_after is_user (rotates id hash) sub =
    some (if has_id id sub then record sub { signing_secret_hash = hash } else sub)
row_after is_user (deletes id) sub = if has_id id sub then none else some sub
row_after is_user (pauses_owner owner now) sub =
    some (if owned_by owner sub && is_active sub then record sub { paused_at = some now } else sub)
row_after is_user (reassigns id owner) sub = some (
    if has_id id sub && owner_known is_user owner
    then record sub { owner_user_id = owner }
    else sub)

abbrev pub row_of : (String → Bool) → Change → String → Table → Option PushSubscription
row_of is_user (inserts new) id rows = elim (get_push id rows) [
  | some sub ↦ some sub
  | none ↦
      if has_id id new && owner_known is_user new.owner_user_id then some (created new) else none
]
row_of is_user c id rows = bind (get_push id rows) (row_after is_user c)

find-any :
    (id : String) (rows : Table) → find? (has_id id) rows ≡ none → any (has_id id) rows ≡ false
find-any id [] h = refl
find-any id (x ∷ rows) h = ground (arith, find-any id rows)

any-find :
    (id : String) (rows : Table) (sub : PushSubscription)
    → find? (has_id id) rows ≡ some sub
    → any (has_id id) rows ≡ true
any-find id [] sub h = absurd (ground arith)
any-find id (x ∷ rows) sub h = ground (arith, any-find id rows sub)

find-append_none :
    (id : String) (rows : Table) (new : PushSubscription)
    → find? (has_id id) rows ≡ none
    → find? (has_id id) (rows ++ new ∷ []) ≡ (if has_id id new then some new else none)
find-append_none id [] new h = refl
find-append_none id (x ∷ rows) new h = ground (arith, find-append_none id rows new)

find-append_some :
    (id : String) (rows : Table) (new sub : PushSubscription)
    → find? (has_id id) rows ≡ some sub
    → find? (has_id id) (rows ++ new ∷ []) ≡ some sub
find-append_some id [] new sub h = absurd (ground arith)
find-append_some id (x ∷ rows) new sub h = ground (arith, find-append_some id rows new sub)

get-insert :
    (is_user : String → Bool) (new : PushSubscription) (id : String) (rows : Table)
    → get_push id (insert_push is_user new rows).1 ≡ row_of is_user (inserts new) id rows
unfolding insert_push get_push
get-insert is_user new id rows = by (find? (has_id id) rows) refl
  where
    by :
        (found : Option PushSubscription)
        → find? (has_id id) rows ≡ found
        → get_push id (insert_push is_user new rows).1 ≡ row_of is_user (inserts new) id rows
    by (some sub) h = ground (arith, find-append_some id rows (created new) sub h)
    by none h = ground (arith, find-append_none id rows (created new) h, find-any id rows h)

pub find-has_id :
    (id : String) (rows : Table) (sub : PushSubscription)
    → find? (has_id id) rows ≡ some sub
    → sub.id ≡ id
find-has_id id [] sub h = absurd (ground arith)
find-has_id id (x ∷ rows) sub h = ground (arith, find-has_id id rows sub)

find-keep :
    (id gone : String) (rows : Table)
    → find? (has_id id) (keep (λ x. not (has_id gone x)) rows)
      ≡ bind (find? (has_id id) rows) (λ x. if has_id gone x then none else some x)
unfolding bind
find-keep id gone [] = refl
find-keep id gone (x ∷ rows) = elim (Option-cases (find? (has_id id) rows)) [
  | inl h ↦ ground (arith, find-keep id gone rows)
  | inr (sub, h) ↦ ground (arith, find-keep id gone rows, find-has_id id rows sub h)
]

get-update_where :
    (id : String) (p : PushSubscription → Bool) (f : PushSubscription → PushSubscription)
    → ((x : PushSubscription) → (f x).id ≡ x.id)
    → (rows : Table)
    → get_push id (update_where p f rows).1
      ≡ bind (get_push id rows) (λ x. some (if p x then f x else x))
unfolding get_push
get-update_where id p f same rows =
    ap (find? (has_id id)) (update_where-rows p f rows) ∙ find-set_where p f same id rows

get-update_push_owner :
    (is_user : String → Bool) (id key : String) (owner : Option String) (rows : Table)
    → get_push id (update_push_owner is_user key owner rows).1
      ≡ row_of is_user (reassigns key owner) id rows
unfolding update_push_owner get_push bind
get-update_push_owner is_user id key owner rows = by (find? (has_id id) rows) refl
  where
    renamed : PushSubscription → PushSubscription
    renamed x = record x { owner_user_id = owner }

    by :
        (found : Option PushSubscription)
        → find? (has_id id) rows ≡ found
        → get_push id (update_push_owner is_user key owner rows).1
          ≡ row_of is_user (reassigns key owner) id rows
    by none h = ground (arith, get-update_where id (has_id key) renamed (λ x. refl) rows)
    by (some sub) h = ground (
      arith,
      get-update_where id (has_id key) renamed (λ x. refl) rows,
      find-has_id id rows sub h,
      any-find id rows sub h,
    )

-- After any call, looking an id up finds what the call makes of the row that was there before: the
-- call's own row is changed in the fields of that call only, every other row is as before, and a
-- new row is found exactly if its id was free and its owner, if it has one, is a user.
pub get_push-change :
    (is_user : String → Bool) (c : Change) (id : String) (rows : Table)
    → get_push id (change is_user c rows) ≡ row_of is_user c id rows
unfolding change bind get_push
get_push-change is_user (inserts sub) id rows = get-insert is_user sub id rows
get_push-change is_user (advances key cursor now) id rows =
    get-update_where id (has_id key) _ (λ x. refl) rows
get_push-change is_user (fails key now message) id rows =
    get-update_where id (has_id key) _ (λ x. refl) rows
get_push-change is_user (pauses key now) id rows =
    get-update_where id (λ x. has_id key x && is_active x) _ (λ x. refl) rows
get_push-change is_user (resumes key) id rows = get-update_where id (has_id key) _ (λ x. refl) rows
get_push-change is_user (rotates key hash) id rows =
    get-update_where id (has_id key) _ (λ x. refl) rows
get_push-change is_user (deletes key) id rows =
    ap (find? (has_id id)) (delete_where-rows (has_id key) rows) ∙ find-keep id key rows
get_push-change is_user (pauses_owner owner now) id rows =
    find-set_where (λ x. owned_by owner x && is_active x) _ (λ x. refl) id rows
get_push-change is_user (reassigns key owner) id rows =
    get-update_push_owner is_user id key owner rows

module _ (id : String) (now : ℕ) (rows : Table) (sub : PushSubscription)
    (found : get_push id rows ≡ some sub) where
  pub get-record_failure :
      (message : String)
      → get_push id (record_failure id now message rows).1
        ≡ some (record sub {
          last_attempt_at = some now;
          last_error = take_text 1024 message;
          consecutive_failures = sub.consecutive_failures + 1;
        })
  unfolding change bind get_push
  get-record_failure message = ground (
    arith,
    get_push-change (λ u. true) (fails id now message) id rows,
    find-has_id id rows sub found,
  )

  pub get-update_cursor_and_success :
      (cursor : ℕ)
      → ((update_cursor_and_success id cursor now rows).0 ≡ ok tt)
        × (get_push id (update_cursor_and_success id cursor now rows).1
            ≡ some (record sub {
              cursor = cursor;
              last_attempt_at = some now;
              last_success_at = some now;
              last_error = "";
              consecutive_failures = 0;
            }))
  unfolding change bind get_push
  get-update_cursor_and_success cursor = (
    ground (arith, update_where-not_found (has_id id) (λ x. x) rows, any-find id rows sub found),
    ground (
      arith,
      get_push-change (λ u. true) (advances id cursor now) id rows,
      find-has_id id rows sub found,
    ),
  )
