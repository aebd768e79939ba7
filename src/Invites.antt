-- ===== src/Invites.antt =====
-- internal/invites/provision.go and api.go: the invites of admins and the signup that redeems one. A
-- call gets the clock's reading in nanoseconds; `none` for a body is one that does not decode, for
-- a code or a hash that its source fails. Emails are unique up to `fold`, SQLite's NOCASE.
pub mod Signups
mod Tests
use hooks.Prelude.{
  ℕ, ◌+◌, ◌-◌, ◌%◌, leb, ◌*◌, ◌^◌, String, List, [], ◌∷◌, Bool, true, false, not, ◌&&◌, ◌||◌,
  Option, none, some, ltb, ◌==◌, if◌then◌else◌, Result, ok, err, string_eq, nat_eq, trim_space, ℤ,
  pos, negsuc,
}
use hooks.Store.Users.{User, Role, admin, user, is_admin}
use hooks.Store.Rows.{StoreError}
use hooks.Store.Invites.{
  Invite, InviteDb, InviteError, email_in_use, invite_consumed, insert_invite, get_invite_by_code,
  is_unconsumed, delete_invite, signup_tx,
}
use hooks.Users.{PolicyError, validate_password}

-- 7 days
abbrev pub default_invite_ttl : ℕ
default_invite_ttl = 7 * 24 * 3600 * 10 ^ 9

-- `NormalizeCode`, over `strings.ToUpper`
unfoldable pub normalize_code : (String → String) → String → String
unfolding trim_space
normalize_code to_upper s = to_upper (trim_space s)

pub data InviteAction : Type 0 where
  user_create invite_consume invite_create invite_revoke : InviteAction

pub record InviteEntry : Type 0 where
  pub actor : String
  pub action : InviteAction
  pub target_id : String

-- The tables and what was recorded in the audit log, the newest first.
pub record Inviter : Type 0 where
  pub db : InviteDb
  pub audit : List InviteEntry

abbrev pub noted : String → InviteAction → String → Inviter → Inviter
noted actor action target s = record s {
  audit = (record { actor = actor; action = action; target_id = target }) ∷ s.audit;
}

pub data SignupError : Type 0 where
  invite_not_found already_consumed invite_expired bad_password in_use internal : SignupError

-- What `Provision` takes from other packages: the case of a letter, the hash of the password and the
-- new user's id.
pub record Registrar : Type 0 where
  pub fold : String → String
  pub to_lower : String → String
  pub to_upper : String → String
  pub hash_password : String → Option String
  pub new_id : String

pub record SignupRequest : Type 0 where
  pub code : String
  pub email : String
  pub name : String
  pub password : String

abbrev pub new_user : Registrar → Invite → SignupRequest → String → ℕ → User
new_user x i r hash now = record {
  id = x.new_id;
  email = r.email;
  name = r.name;
  role = i.role;
  password_hash = hash;
  default_scopes = i.default_scopes;
  created_at = now;
  deactivated_at = none;
  external_id = none;
}

abbrev pub signup_error : InviteError → SignupError
signup_error invite_consumed = already_consumed
signup_error email_in_use = in_use
signup_error _ = internal

abbrev pub settled :
    SignupRequest
    → User
    → Inviter
    → Result InviteError Unit × InviteDb
    → Result SignupError User × Inviter
settled r u s (err e, db) = (err (signup_error e), record s { db = db })
settled r u s (ok _, db) =
    (ok u, noted u.id invite_consume r.code (noted u.id user_create u.id (record s { db = db })))

abbrev pub provision_hashed :
    Registrar
    → SignupRequest
    → ℕ
    → Inviter
    → Invite
    → Option String
    → Result SignupError User × Inviter
provision_hashed x r now s i none = (err internal, s)
provision_hashed x r now s i (some hash) =
    let u = new_user x i r hash now in settled r u s (signup_tx x.fold r.code u now s.db)

abbrev pub is_past : ℕ → Option ℕ → Bool
is_past now none = false
is_past now (some e) = ltb e now

abbrev pub policy_passed : Result PolicyError Unit → Bool
policy_passed (ok _) = true
policy_passed (err _) = false

-- `Provision` on the invite found
unfoldable pub provision_found :
    Registrar → SignupRequest → ℕ → Inviter → Option Invite → Result SignupError User × Inviter
unfolding validate_password
provision_found x r now s none = (err invite_not_found, s)
provision_found x r now s (some i) =
    if not (is_unconsumed i)
    then (err already_consumed, s)
    else if is_past now i.expires_at
    then (err invite_expired, s)
    else if not (policy_passed (validate_password x.to_lower r.email r.password))
    then (err bad_password, s)
    else provision_hashed x r now s i (x.hash_password r.password)

-- `Provision`
unfoldable pub provision :
    Registrar → SignupRequest → ℕ → Inviter → Result SignupError User × Inviter
unfolding provision_found get_invite_by_code
provision x r now s = provision_found x r now s (get_invite_by_code r.code s.db.invites)

-- `handleSignupErr`
abbrev pub signup_status : SignupError → ℕ
signup_status invite_not_found = 404
signup_status already_consumed = 409
signup_status invite_expired = 410
signup_status bad_password = 400
signup_status in_use = 409
signup_status internal = 500

abbrev pub signup_answer : Result SignupError User → ℕ
signup_answer (ok _) = 201
signup_answer (err e) = signup_status e

unfoldable pub trimmed : Registrar → SignupRequest → SignupRequest
unfolding normalize_code trim_space
trimmed x r = record r {
  code = normalize_code x.to_upper r.code;
  email = trim_space r.email;
  name = trim_space r.name;
}

abbrev pub lacks_field : SignupRequest → Bool
lacks_field r = r.code == "" || r.email == "" || r.name == "" || r.password == ""

-- `Signup`: the status
unfoldable pub signup : Registrar → Option SignupRequest → ℕ → Inviter → ℕ × Inviter
unfolding provision trimmed
signup x none now s = (400, s)
signup x (some r) now s =
    if lacks_field (trimmed x r)
    then (400, s)
    else (let (a, t) = provision x (trimmed x r) now s in (signup_answer a, t))

-- `requireAdmin`: the caller, or the status that refuses; `none` is a request without a session.
abbrev pub require_admin : Option User → Result ℕ User
require_admin none = err 401
require_admin (some u) = if is_admin u.role then ok u else err 403

pub record CreateRequest : Type 0 where
  pub role : Option Role
  pub default_scopes : List String
  pub ttl_seconds : ℤ

-- A number of seconds as a `time.Duration`, in the 64-bit arithmetic of nanoseconds: the residue
-- below 2 ^ 64, which stands for a negative duration from 2 ^ 63 on.
abbrev pub duration_bits : ℤ → ℕ
duration_bits (pos n) = (n * 10 ^ 9) % 2 ^ 64
duration_bits (negsuc n) = (2 ^ 64 - ((n + 1) * 10 ^ 9) % 2 ^ 64) % 2 ^ 64

-- The lifetime asked for, where it is positive.
abbrev pub invite_ttl : ℤ → ℕ
invite_ttl seconds =
    let bits = duration_bits seconds in
    if bits == 0 then default_invite_ttl else if leb (2 ^ 63) bits then default_invite_ttl else bits

abbrev pub created_invite : User → String → Role → CreateRequest → ℕ → Invite
created_invite caller code role r now = record {
  code = code;
  role = role;
  default_scopes = r.default_scopes;
  created_by_user_id = some caller.id;
  bootstrap = false;
  created_at = now;
  expires_at = some (now + invite_ttl r.ttl_seconds);
  consumed_at = none;
  consumed_by_user_id = none;
}

abbrev pub created_answer :
    User → Inviter → Invite → Result InviteError Unit × InviteDb → Result ℕ Invite × Inviter
created_answer caller s i (err _, db) = (err 500, record s { db = db })
created_answer caller s i (ok _, db) =
    (ok i, noted caller.id invite_create i.code (record s { db = db }))

-- `Create` with a request read and a known role.
unfoldable pub create_invite :
    User → Option String → Role → CreateRequest → ℕ → Inviter → Result ℕ Invite × Inviter
unfolding insert_invite
create_invite caller none role r now s = (err 500, s)
create_invite caller (some code) role r now s =
    let i = created_invite caller code role r now in
    created_answer caller s i (insert_invite i s.db)

unfoldable pub create_requested :
    User
    → Option String
    → Option CreateRequest
    → ℕ
    → Inviter
    → Option Role
    → Result ℕ Invite × Inviter
unfolding create_invite
create_requested caller code none now s role = (err 400, s)
create_requested caller code (some r) now s none = (err 400, s)
create_requested caller code (some r) now s (some role) = create_invite caller code role r now s

abbrev pub role_of : Option CreateRequest → Option Role
role_of none = none
role_of (some r) = r.role

-- `Create`: the status of a refusal, or the invite
unfoldable pub create :
    Option User → Option String → Option CreateRequest → ℕ → Inviter → Result ℕ Invite × Inviter
unfolding create_requested
create session code request now s = elim (require_admin session) [
  | err e ↦ (err e, s)
  | ok caller ↦ create_requested caller code request now s (role_of request)
]

abbrev pub deleted_answer :
    User → String → Inviter → Result StoreError Unit × List Invite → ℕ × Inviter
deleted_answer caller code s (err _, rows) = (500, record s { db = record s.db { invites = rows } })
deleted_answer caller code s (ok _, rows) =
    (204, noted caller.id invite_revoke code (record s { db = record s.db { invites = rows } }))

unfoldable pub delete_found : User → String → Inviter → Option Invite → ℕ × Inviter
unfolding delete_invite
delete_found caller code s none = (404, s)
delete_found caller code s (some i) =
    if not (is_unconsumed i)
    then (409, s)
    else deleted_answer caller code s (delete_invite code s.db.invites)

-- `Delete`: the status
unfoldable pub delete : (String → String) → Option User → String → Inviter → ℕ × Inviter
unfolding delete_found normalize_code get_invite_by_code
delete to_upper session path s = elim (require_admin session) [
  | err e ↦ (e, s)
  | ok caller ↦
      let code = normalize_code to_upper path in
      delete_found caller code s (get_invite_by_code code s.db.invites)
]
