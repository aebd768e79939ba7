-- ===== src/Store/Sessions.antt =====
-- internal/store/sessions_store.go, over the queries of sqlcgen/sessions.sql.go. The table is the
-- list of its rows in the order of insertion; times are nanoseconds.
use hooks.Prelude.{
  ℕ, String, List, [], ◌∷◌, ◌++◌, Bool, not, ◌||◌, Option, ltb, ◌==◌, if◌then◌else◌, Result, ok,
  err, keep, any, find?, length, string_eq, nat_eq,
}
use hooks.Store.Rows.{StoreError, set_where, delete_where}

pub record Session : Type 0 where
  pub id : String
  pub user_id : String
  pub secret_hash : String
  pub created_at : ℕ
  pub last_used_at : ℕ
  pub expires_at : ℕ
  pub user_agent : String
  pub ip : String

abbrev pub SessionTable : Type 0
SessionTable = List Session

pub data SessionError : Type 0 where
  empty_id session_refused : SessionError

abbrev pub session_is : String → Session → Bool
session_is id s = s.id == id

-- `InsertSession`
unfoldable pub insert_session :
    (String → Bool) → Session → SessionTable → Result SessionError Unit × SessionTable
insert_session is_user s rows =
    if s.id == ""
    then (err empty_id, rows)
    else if any (session_is s.id) rows || not (is_user s.user_id)
    then (err session_refused, rows)
    else (ok tt, rows ++ s ∷ [])

-- `GetSession`
unfoldable pub get_session : String → SessionTable → Option Session
get_session id = find? (session_is id)

-- `TouchSession`
unfoldable pub touch_session : String → ℕ → ℕ → SessionTable → SessionTable
touch_session id last_used expires =
    set_where (session_is id) λ s. record s { last_used_at = last_used; expires_at = expires }

-- `DeleteSession`
unfoldable pub delete_session : String → SessionTable → Result StoreError Unit × SessionTable
delete_session id = delete_where (session_is id)

-- `DeleteSessionsByUser`
unfoldable pub delete_sessions_by_user : String → SessionTable → SessionTable
delete_sessions_by_user user = keep λ s. not (s.user_id == user)

-- `DeleteExpiredSessions`, with the count it reports.
unfoldable pub delete_expired_sessions : ℕ → SessionTable → SessionTable × ℕ
delete_expired_sessions before rows = (
  keep (λ s. not (ltb s.expires_at before)) rows,
  length (keep (λ s. ltb s.expires_at before) rows),
)
