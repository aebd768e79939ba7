-- ===== src/Auth.antt =====
-- internal/auth/sessions.go, login.go, middleware.go and sweeper.go: web sessions. The hash of a
-- session's secret (SHA-256) and of a password are parameters, as are the random secret and id. A
-- call gets the clock's reading in nanoseconds.
pub mod Sessions
mod Tests
use Prim.Native.String as S
use hooks.Prelude.{
  ℕ, ◌+◌, ◌*◌, ◌^◌, String, List, [], Bool, true, false, not, ◌&&◌, ◌||◌, Option, none, some, ltb,
  leb, ◌==◌, if◌then◌else◌, Result, ok, err, find?, string_eq, nat_eq, cut, take_text,
}
use hooks.Store.Users.{User, get_user_by_id, is_activated}
use hooks.Store.Rows.{StoreError}
use hooks.Store.Sessions.{
  Session, SessionTable, SessionError, insert_session, get_session, touch_session, delete_session,
  delete_sessions_by_user, delete_expired_sessions,
}

pub data SessionRefusal : Type 0 where
  invalid expired : SessionRefusal

-- 30 days
abbrev pub default_session_ttl : ℕ
default_session_ttl = 30 * 24 * 3600 * 10 ^ 9

-- One hour
abbrev pub min_slide_interval : ℕ
min_slide_interval = 3600 * 10 ^ 9

-- The TTL that `NewManager` leaves in the options.
abbrev pub session_ttl : ℕ → ℕ
session_ttl ttl = if ttl == 0 then default_session_ttl else ttl

abbrev pub created_session : String → String → ℕ → ℕ → String → String → String → Session
created_session id hash now ttl user_id user_agent ip = record {
  id = id;
  user_id = user_id;
  secret_hash = hash;
  created_at = now;
  last_used_at = now;
  expires_at = now + ttl;
  user_agent = take_text 256 user_agent;
  ip = take_text 64 ip;
}

abbrev pub cookie_of : String → String → String
cookie_of id plaintext = S.◌++◌ id (S.◌++◌ "." plaintext)

-- `CreateSession`, with the cookie that it returns
unfoldable pub create_session :
    (String → String)
    → (String → Bool)
    → String
    → String
    → ℕ
    → ℕ
    → String
    → String
    → String
    → SessionTable
    → Result SessionError (String × Session) × SessionTable
unfolding insert_session
create_session hash is_user id plaintext now ttl user_id user_agent ip rows =
    let s = created_session id (hash plaintext) now ttl user_id user_agent ip in
    let (r, after) = insert_session is_user s rows in
    elim r [ err e ↦ (err e, after) | ok _ ↦ (ok (cookie_of id plaintext, s), after) ]

-- A call of `Lookup` writes at most once; `written` says whether that write succeeds.
abbrev pub dropped : Bool → String → SessionTable → SessionTable
dropped written id rows = if written then (delete_session id rows).1 else rows

-- The session as `Lookup` returns it, with its expiry moved where it was not used for an hour
-- and `Touch` succeeds.
abbrev pub is_stale : ℕ → Session → Bool
is_stale now s = leb (s.last_used_at + min_slide_interval) now

abbrev pub slid : Bool → ℕ → ℕ → Session → Session
slid written now ttl s =
    if is_stale now s && written then record s { last_used_at = now; expires_at = now + ttl } else s

unfoldable pub slide : Bool → ℕ → ℕ → Session → SessionTable → SessionTable
unfolding touch_session
slide written now ttl s rows =
    if is_stale now s && written then touch_session s.id now (now + ttl) rows else rows

-- `Lookup` on the user of the session
unfoldable pub lookup_user :
    Bool
    → ℕ
    → ℕ
    → Session
    → SessionTable
    → Option User
    → Result SessionRefusal (User × Session) × SessionTable
unfolding slide delete_session
lookup_user written now ttl s rows none = (err invalid, rows)
lookup_user written now ttl s rows (some u) =
    if not (is_activated u)
    then (err invalid, dropped written s.id rows)
    else (ok (u, slid written now ttl s), slide written now ttl s rows)

-- `Lookup` on the session found
unfoldable pub lookup_session :
    Bool
    → (String → String)
    → String
    → ℕ
    → ℕ
    → List User
    → SessionTable
    → Option Session
    → Result SessionRefusal (User × Session) × SessionTable
unfolding lookup_user get_user_by_id delete_session
lookup_session written hash plaintext now ttl users rows none = (err invalid, rows)
lookup_session written hash plaintext now ttl users rows (some s) =
    if not (hash plaintext == s.secret_hash)
    then (err invalid, rows)
    else if ltb s.expires_at now
    then (err expired, dropped written s.id rows)
    else lookup_user written now ttl s rows (get_user_by_id s.user_id users)

-- `Lookup` on the two halves of the cookie
unfoldable pub lookup_parts :
    Bool
    → (String → String)
    → ℕ
    → ℕ
    → List User
    → SessionTable
    → Option (String × String)
    → Result SessionRefusal (User × Session) × SessionTable
unfolding lookup_session get_session
lookup_parts written hash now ttl users rows none = (err invalid, rows)
lookup_parts written hash now ttl users rows (some (id, plaintext)) =
    if id == "" || plaintext == ""
    then (err invalid, rows)
    else lookup_session written hash plaintext now ttl users rows (get_session id rows)

-- `Lookup`
unfoldable pub lookup :
    Bool
    → (String → String)
    → ℕ
    → ℕ
    → List User
    → String
    → SessionTable
    → Result SessionRefusal (User × Session) × SessionTable
unfolding lookup_parts cut
lookup written hash now ttl users cookie rows =
    lookup_parts written hash now ttl users rows (cut b'.' cookie)

-- `DeleteSession` of the manager on the session found
unfoldable pub delete_checked :
    (String → String) → String → SessionTable → Option Session → Option String × SessionTable
unfolding delete_session
delete_checked hash plaintext rows none = (none, rows)
delete_checked hash plaintext rows (some s) =
    if not (hash plaintext == s.secret_hash)
    then (none, rows)
    else (some s.id, (delete_session s.id rows).1)

unfoldable pub delete_parts :
    (String → String) → SessionTable → Option (String × String) → Option String × SessionTable
unfolding delete_checked get_session
delete_parts hash rows none = (none, rows)
delete_parts hash rows (some (id, plaintext)) =
    if id == "" || plaintext == ""
    then (none, rows)
    else delete_checked hash plaintext rows (get_session id rows)

-- `DeleteSession` of the manager: the id, or `none` for `ErrInvalid`
unfoldable pub log_out : (String → String) → String → SessionTable → Option String × SessionTable
unfolding delete_parts cut
log_out hash cookie rows = delete_parts hash rows (cut b'.' cookie)

pub data LoginError : Type 0 where
  bad_credentials deactivated verify_failed : LoginError

abbrev pub check_active : User → Result LoginError User
check_active u = if is_activated u then ok u else err deactivated

-- `Authenticate` on what the check of the password says
abbrev pub verified : User → Option Bool → Result LoginError User
verified u none = err verify_failed
verified u (some false) = err bad_credentials
verified u (some true) = check_active u

-- `Authenticate` on the row with the email
unfoldable pub authenticate_found :
    (String → String → Option Bool) → String → Option User → Result LoginError User
authenticate_found verify password none = err bad_credentials
authenticate_found verify password (some u) = verified u (verify password u.password_hash)

-- `Authenticate`; `fold` is SQLite's NOCASE
unfoldable pub authenticate :
    (String → String)
    → (String → String → Option Bool)
    → List User
    → String
    → String
    → Result LoginError User
unfolding authenticate_found
authenticate fold verify users email password =
    authenticate_found verify password (find? (λ u. fold u.email == fold email) users)

abbrev pub passed_on : Result SessionRefusal (User × Session) → Option (User × Session)
passed_on (ok r) = some r
passed_on (err _) = none

-- `Middleware`: what it attaches to the request, and whether it clears the cookies; `none` as the
-- cookie is a request without one.
unfoldable pub attach :
    Bool
    → (String → String)
    → ℕ
    → ℕ
    → List User
    → Option String
    → SessionTable
    → Option (User × Session) × Bool × SessionTable
unfolding lookup
attach written hash now ttl users none rows = (none, false, rows)
attach written hash now ttl users (some cookie) rows =
    if cookie == ""
    then (none, false, rows)
    else (let (r, after) = lookup written hash now ttl users cookie rows in
        (passed_on r, (elim r [ ok _ ↦ false | err _ ↦ true ]), after))

-- One tick of `RunSweeper`
unfoldable pub sweep_sessions : ℕ → SessionTable → SessionTable
unfolding delete_expired_sessions
sweep_sessions now rows = (delete_expired_sessions now rows).0
