-- ===== src/Store/Users.antt =====
-- internal/store/users_store.go: the deactivation of a user with its cascade, over the queries of
-- sqlcgen/users.sql.go, tokens.sql.go and push.sql.go. Times are nanoseconds.
pub mod Cascade
mod Tests
use hooks.Prelude.{
  ℕ, String, List, Bool, true, false, not, ◌&&◌, Option, none, some, ◌==◌, if◌then◌else◌, Result,
  ok, err, keep, find?, length, string_eq, nat_eq,
}
use hooks.Store.Rows.{set_where}
use hooks.Store.Push
use hooks.Store.Push.{pause_push_by_owner}
use hooks.Store.Tokens.{TokenTable, revoke_tokens_by_owner}

pub data Role : Type 0 where
  admin user : Role

pub record User : Type 0 where
  pub id : String
  pub email : String
  pub name : String
  pub role : Role
  pub password_hash : String
  pub default_scopes : List String
  pub created_at : ℕ
  pub deactivated_at : Option ℕ
  pub external_id : Option String

-- The tables that the transaction touches.
pub record Accounts : Type 0 where
  pub users : List User
  pub tokens : TokenTable
  pub subscriptions : Push.Table

pub data CascadeError : Type 0 where
  user_not_found already_deactivated last_admin : CascadeError

abbrev pub user_is : String → User → Bool
user_is id u = u.id == id

abbrev pub is_activated : User → Bool
is_activated u = elim u.deactivated_at [ none ↦ true | some _ ↦ false ]

abbrev pub is_admin : Role → Bool
is_admin admin = true
is_admin user = false

abbrev pub is_active_admin : User → Bool
is_active_admin u = is_admin u.role && is_activated u

unfoldable pub get_user_by_id : String → List User → Option User
get_user_by_id id = find? (user_is id)

unfoldable pub count_active_admins_excluding : String → List User → ℕ
count_active_admins_excluding id users =
    length (keep (λ u. is_active_admin u && not (user_is id u)) users)

unfoldable pub deactivate_user : String → ℕ → List User → List User
deactivate_user id now =
    set_where (λ u. user_is id u && is_activated u) λ u. record u { deactivated_at = some now }

-- The writes of the transaction, with the counts that it reports.
unfoldable pub cascade : String → ℕ → Accounts → Result CascadeError (ℕ × ℕ) × Accounts
unfolding deactivate_user revoke_tokens_by_owner pause_push_by_owner
cascade id now a =
    let (tokens, revoked) = revoke_tokens_by_owner id now a.tokens in
    let (subscriptions, paused) = pause_push_by_owner id now a.subscriptions in
    (
      ok (revoked, paused),
      record {
        users = deactivate_user id now a.users;
        tokens = tokens;
        subscriptions = subscriptions;
      },
    )

unfoldable pub guard_last_admin :
    String → ℕ → Accounts → User → Result CascadeError (ℕ × ℕ) × Accounts
unfolding cascade count_active_admins_excluding
guard_last_admin id now a u =
    if not (is_activated u)
    then (err already_deactivated, a)
    else if is_admin u.role && count_active_admins_excluding id a.users == 0
    then (err last_admin, a)
    else cascade id now a

-- `DeactivateUserCascade`; a path that returns an error rolls the transaction back.
unfoldable pub deactivate_user_cascade :
    String → ℕ → Accounts → Result CascadeError (ℕ × ℕ) × Accounts
unfolding guard_last_admin get_user_by_id
deactivate_user_cascade id now a = elim (get_user_by_id id a.users) [
  | none ↦ (err user_not_found, a)
  | some u ↦ guard_last_admin id now a u
]
