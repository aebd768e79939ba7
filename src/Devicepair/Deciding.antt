-- ===== src/Devicepair/Deciding.antt =====
-- internal/devicepair/api.go: `Approve` and `Deny` with the rules behind them.
use hooks.Prelude.{
  ℕ, String, Bool, true, false, not, ◌||◌, Option, none, some, ltb, ◌==◌, if◌then◌else◌, Result, ok,
  err, length, string_eq, nat_eq,
}
use hooks.Store.Users.{User}
use hooks.Store.Scopes.{Scopes, subset_of, held_by_user}
use hooks.Store.Tokens.{Token, pat}
use hooks.Store.Pairings.{
  DevicePairing, pairing_not_found, is_pending, get_by_user_code, approve_device_pairing,
  deny_device_pairing,
}
use hooks.Devicepair.Codes.{normalize_user_code}
use hooks.Devicepair.{Pairer, recorded, with_db, pairing_approve, pairing_deny}

pub data ApproveError : Type 0 where
  bad_input password_verify user_code_not_found pairing_not_pending pairing_expired : ApproveError
  exceeds_requested exceeds_authority internal : ApproveError

-- `tokens.Generate`: an id, the plaintext and its hash.
pub record IssueResult : Type 0 where
  pub id : String
  pub plaintext : String
  pub hash : String

-- What a call of `ApproveCore` takes from other packages: the check of the password against a
-- stored hash, `none` for an error of it, and the token generated, `none` where that fails.
pub record Approver : Type 0 where
  pub is_user : String → Bool
  pub verify_password : String → String → Option Bool
  pub generated : Option IssueResult

abbrev pub pairing_token : IssueResult → Scopes → ℕ → Token
pairing_token g scopes now = record {
  id = g.id;
  name = "device-pairing";
  scopes = scopes;
  secret_hash = g.hash;
  created_at = now;
  last_used_at = none;
  revoked_at = none;
  owner_user_id = none;
  kind = pat;
  ephemeral = false;
  expires_at = none;
}

-- The end of `ApproveCore`, from the generation of the token on.
unfoldable pub mint :
    Approver
    → User
    → String
    → DevicePairing
    → Scopes
    → ℕ
    → Pairer
    → Result ApproveError Unit × Pairer
unfolding approve_device_pairing
mint x caller code p granted now s = elim x.generated [
  | none ↦ (err internal, s)
  | some g ↦
      let (r, db) =
        approve_device_pairing x.is_user code (pairing_token g granted now) g.plaintext caller.id
          now s.db in
      elim r [
        | err _ ↦ (err internal, with_db db s)
        | ok _ ↦ (ok tt, recorded (some caller.id) pairing_approve p.device_code (with_db db s))
      ]
]

abbrev pub or_requested : Scopes → DevicePairing → Scopes
or_requested granted p = if length granted == 0 then p.requested_scopes else granted

-- The guards of `ApproveCore` on the row.
unfoldable pub approve_found :
    Approver
    → User
    → String
    → Scopes
    → ℕ
    → Pairer
    → Option DevicePairing
    → Result ApproveError Unit × Pairer
unfolding mint subset_of held_by_user
approve_found x caller code granted now s none = (err user_code_not_found, s)
approve_found x caller code granted now s (some p) =
    if not (is_pending p.status)
    then (err pairing_not_pending, s)
    else if ltb p.expires_at now
    then (err pairing_expired, s)
    else if not (subset_of (or_requested granted p) p.requested_scopes)
    then (err exceeds_requested, s)
    else if not (subset_of (or_requested granted p) (held_by_user caller))
    then (err exceeds_authority, s)
    else mint x caller code p (or_requested granted p) now s

-- `ApproveCore` on what the check of the password says.
unfoldable pub approve_verified :
    Approver → User → String → Scopes → ℕ → Pairer → Option Bool → Result ApproveError Unit × Pairer
unfolding approve_found get_by_user_code
approve_verified x caller code granted now s none = (err internal, s)
approve_verified x caller code granted now s (some false) = (err password_verify, s)
approve_verified x caller code granted now s (some true) =
    approve_found x caller code granted now s (get_by_user_code code s.db.pairings)

-- `ApproveCore`
unfoldable pub approve_core :
    Approver → User → String → String → Scopes → ℕ → Pairer → Result ApproveError Unit × Pairer
unfolding approve_verified
approve_core x caller code password granted now s =
    if code == "" || password == ""
    then (err bad_input, s)
    else approve_verified x caller code granted now s
        (x.verify_password password caller.password_hash)

-- `writeApproveError`
abbrev pub approve_status : ApproveError → ℕ
approve_status bad_input = 400
approve_status password_verify = 401
approve_status user_code_not_found = 404
approve_status pairing_not_pending = 409
approve_status pairing_expired = 410
approve_status exceeds_requested = 403
approve_status exceeds_authority = 403
approve_status internal = 500

pub record ApproveRequest : Type 0 where
  pub user_code : String
  pub password : String
  pub granted_scopes : Scopes

abbrev pub status_of : Result ApproveError Unit → ℕ
status_of (ok _) = 200
status_of (err e) = approve_status e

-- `Approve`: the status; `none` as the caller is a request without a session.
unfoldable pub approve :
    (String → String) → Approver → Option User → Option ApproveRequest → ℕ → Pairer → ℕ × Pairer
unfolding approve_core normalize_user_code
approve to_upper x none r now s = (401, s)
approve to_upper x (some caller) none now s = (400, s)
approve to_upper x (some caller) (some r) now s =
    let (answer, t) =
      approve_core x caller (normalize_user_code to_upper r.user_code) r.password r.granted_scopes
        now s in
    (status_of answer, t)

-- `DenyCore`, as the status of `Deny`
unfoldable pub deny_core : (String → Bool) → User → String → Pairer → ℕ × Pairer
unfolding deny_device_pairing
deny_core is_user caller code s =
    let (r, db) = deny_device_pairing is_user code caller.id s.db in
    elim r [
      | ok _ ↦ (204, recorded (some caller.id) pairing_deny code (with_db db s))
      | err e ↦ elim e [ pairing_not_found ↦ (404, with_db db s) | other ↦ (500, with_db db s) ]
    ]

-- `Deny`
unfoldable pub deny :
    (String → String) → (String → Bool) → Option User → Option String → Pairer → ℕ × Pairer
unfolding deny_core normalize_user_code
deny to_upper is_user none r s = (401, s)
deny to_upper is_user (some caller) none s = (400, s)
deny to_upper is_user (some caller) (some code) s =
    deny_core is_user caller (normalize_user_code to_upper code) s
