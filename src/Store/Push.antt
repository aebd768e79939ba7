-- ===== src/Store/Push.antt =====
-- internal/store/sqlite.go: the push subscriptions, over the queries of sqlcgen/push.sql.go. The
-- table is the list of its rows in the order of insertion; times are nanoseconds. `is_user` says
-- which ids the users table holds, which the foreign key on the owner asks for.
pub mod Keys
pub mod Lookups
pub mod Listings
mod Tests
use hooks.Prelude.{
  ℕ, ◌+◌, ◌-◌, String, List, [], ◌∷◌, ◌++◌, Bool, true, false, not, ◌&&◌, ◌||◌, Option, none, some,
  ltb, leb, ◌==◌, if◌then◌else◌, Result, ok, err, keep, any, find?, length, string_eq, nat_eq,
  take_text,
}
use hooks.Store.Rows.{StoreError, constraint_failed, set_where, update_where, delete_where}

pub record PushSubscription : Type 0 where
  pub id : String
  pub source : String
  pub target_url : String
  pub signing_secret_hash : String
  pub name : String
  pub cursor : ℕ
  pub paused_at : Option ℕ
  pub created_at : ℕ
  pub last_attempt_at : Option ℕ
  pub last_success_at : Option ℕ
  pub last_error : String
  pub consecutive_failures : ℕ
  pub owner_user_id : Option String

abbrev pub Table : Type 0
Table = List PushSubscription

abbrev pub has_id : String → PushSubscription → Bool
has_id id sub = sub.id == id

abbrev pub is_active : PushSubscription → Bool
is_active sub = elim sub.paused_at [ none ↦ true | some _ ↦ false ]

abbrev pub owned_by : String → PushSubscription → Bool
owned_by owner sub = elim sub.owner_user_id [ none ↦ false | some u ↦ u == owner ]

abbrev pub is_system : PushSubscription → Bool
is_system sub = elim sub.owner_user_id [ none ↦ true | some _ ↦ false ]

abbrev owner_known : (String → Bool) → Option String → Bool
owner_known is_user none = true
owner_known is_user (some u) = is_user u

-- The row inserted: the query sets the error and the failures itself and leaves the attempts NULL.
abbrev pub created : PushSubscription → PushSubscription
created sub = record sub {
  last_attempt_at = none;
  last_success_at = none;
  last_error = "";
  consecutive_failures = 0;
}

unfoldable pub insert_push :
    (String → Bool) → PushSubscription → Table → Result StoreError Unit × Table
insert_push is_user sub rows =
    if any (has_id sub.id) rows || not (owner_known is_user sub.owner_user_id)
    then (err constraint_failed, rows)
    else (ok tt, rows ++ created sub ∷ [])

insert_by_created : PushSubscription → Table → Table
insert_by_created sub [] = sub ∷ []
insert_by_created sub (x ∷ xs) =
    let rest = x ∷ insert_by_created sub xs in
    if leb sub.created_at x.created_at then sub ∷ x ∷ xs else rest

-- ORDER BY created_at ASC; rows of one time stay in the order of insertion.
pub order_by_created : Table → Table
unfolding insert_by_created
order_by_created [] = []
order_by_created (sub ∷ rows) = insert_by_created sub (order_by_created rows)

unfoldable pub list_push : Bool → Table → Table
unfolding order_by_created
list_push include_paused rows = order_by_created (keep (λ s. include_paused || is_active s) rows)

unfoldable pub list_push_by_source : String → Bool → Table → Table
unfolding order_by_created
list_push_by_source source include_paused rows =
    order_by_created (keep (λ s. s.source == source && (include_paused || is_active s)) rows)

unfoldable pub list_push_by_owner : String → Bool → Table → Table
unfolding order_by_created
list_push_by_owner owner include_paused rows =
    order_by_created (keep (λ s. owned_by owner s && (include_paused || is_active s)) rows)

unfoldable pub list_system_push : Bool → Table → Table
unfolding order_by_created
list_system_push include_paused rows =
    order_by_created (keep (λ s. is_system s && (include_paused || is_active s)) rows)

-- `none` is `ErrNotFound`.
unfoldable pub get_push : String → Table → Option PushSubscription
get_push id = find? (has_id id)

unfoldable pub update_cursor_and_success : String → ℕ → ℕ → Table → Result StoreError Unit × Table
update_cursor_and_success id cursor now = update_where (has_id id) λ sub. record sub {
  cursor = cursor;
  last_attempt_at = some now;
  last_success_at = some now;
  last_error = "";
  consecutive_failures = 0;
}

-- The message is cut at 1024 bytes.
unfoldable pub record_failure : String → ℕ → String → Table → Result StoreError Unit × Table
record_failure id now message = update_where (has_id id) λ sub. record sub {
  last_attempt_at = some now;
  last_error = take_text 1024 message;
  consecutive_failures = sub.consecutive_failures + 1;
}

-- Only a row that is not paused is met.
unfoldable pub pause_push : String → ℕ → Table → Result StoreError Unit × Table
pause_push id now =
    update_where (λ sub. has_id id sub && is_active sub) λ sub. record sub { paused_at = some now }

unfoldable pub resume_push : String → Table → Result StoreError Unit × Table
resume_push id = update_where (has_id id) λ sub. record sub { paused_at = none }

unfoldable pub rotate_push_secret : String → String → Table → Result StoreError Unit × Table
rotate_push_secret id hash =
    update_where (has_id id) λ sub. record sub { signing_secret_hash = hash }

unfoldable pub delete_push : String → Table → Result StoreError Unit × Table
delete_push id = delete_where (has_id id)

-- The second part is the count of the rows paused.
unfoldable pub pause_push_by_owner : String → ℕ → Table → Table × ℕ
pause_push_by_owner owner now rows =
    let open_ones : PushSubscription → Bool = λ sub. owned_by owner sub && is_active sub in
    (
      set_where open_ones (λ sub. record sub { paused_at = some now }) rows,
      length (keep open_ones rows),
    )

unfoldable pub update_push_owner :
    (String → Bool) → String → Option String → Table → Result StoreError Unit × Table
update_push_owner is_user id owner rows =
    if any (has_id id) rows && not (owner_known is_user owner)
    then (err constraint_failed, rows)
    else update_where (has_id id) (λ sub. record sub { owner_user_id = owner }) rows
