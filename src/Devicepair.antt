-- ===== src/Devicepair.antt =====
-- internal/devicepair/api.go: the pairing of a command line client, with `Start` and the sweeper. A call gets the clock's
-- reading, in nanoseconds; what `crypto/rand`, the password hash and the reading of a request body
-- yield are arguments. `none` for a body is one that does not decode.
pub mod Codes
pub mod Draws
pub mod Polling
pub mod Deciding
pub mod Lifecycle
pub mod Approval
pub mod Once
mod Tests
use hooks.Prelude.{
  ℕ, ◌+◌, ◌-◌, ◌*◌, ◌^◌, String, List, [], ◌∷◌, ◌++◌, Bool, true, false, not, ◌&&◌, ◌||◌, Option,
  none, some, ltb, ◌==◌, if◌then◌else◌, Result, ok, err, any, length, string_eq, nat_eq,
}
use hooks.Store.Users.{User}
use hooks.Store.Scopes.{Scopes, scope_account, scope_admin, member, subset_of, held_by_user}
use hooks.Store.Tokens.{Token, TokenRow, TokenKind, pat, token_from_gen, get_token}
use hooks.Store.Pairings.{
  PairingStatus, pending, approved_unfetched, done, denied, expired, blank, unknown, DevicePairing,
  PairingError, pairing_not_found, PairingDb, is_pending, is_unfetched, insert_device_pairing,
  get_by_device_code, get_by_user_code, approve_device_pairing, deny_device_pairing,
  mark_device_pairing_fetched, expire_pending_device_pairings, delete_old_device_pairings,
}

-- 15 minutes
abbrev pub pairing_ttl : ℕ
pairing_ttl = 15 * 60 * 10 ^ 9

-- 24 hours
abbrev pub pairing_retention : ℕ
pairing_retention = 24 * 3600 * 10 ^ 9

pub data PairingAction : Type 0 where
  pairing_start pairing_approve pairing_deny : PairingAction

pub record AuditEntry : Type 0 where
  pub actor : Option String
  pub action : PairingAction
  pub target_id : String

-- The database and what was recorded in the audit log, the newest first.
pub record Pairer : Type 0 where
  pub db : PairingDb
  pub audit : List AuditEntry

abbrev pub recorded : Option String → PairingAction → String → Pairer → Pairer
recorded actor action target s = record s {
  audit = (record { actor = actor; action = action; target_id = target }) ∷ s.audit;
}

abbrev pub with_db : PairingDb → Pairer → Pairer
with_db db s = record s { db = db }

pub record StartRequest : Type 0 where
  pub scopes : Scopes
  pub admin : Bool

pub data Body (A : Type 0) : Type 0 where
  no_body bad_body : Body A
  body : A → Body A

-- The scopes that a request stands for.
unfoldable pub requested : StartRequest → Scopes
requested r =
    let scopes = if length r.scopes == 0 then scope_account ∷ [] else r.scopes in
    if r.admin && not (member scope_admin scopes) then scopes ++ scope_admin ∷ [] else scopes

pub record Client : Type 0 where
  pub ip : String
  pub user_agent : String

-- `startResponse`; the URL and the interval are constants of the server.
pub record StartResponse : Type 0 where
  pub device_code : String
  pub user_code : String
  pub expires_in : ℕ

abbrev pub started : String → String → ℕ → Client → Scopes → DevicePairing
started device user now client scopes = record {
  device_code = device;
  user_code = user;
  status = pending;
  created_at = now;
  expires_at = now + pairing_ttl;
  user_id = none;
  requesting_ip = client.ip;
  requesting_user_agent = client.user_agent;
  requested_scopes = scopes;
  plaintext_token = none;
  token_id = none;
}

-- The end of `Start`, from the insertion on.
unfoldable pub insert_started :
    (String → Bool) → DevicePairing → Pairer → Result ℕ StartResponse × Pairer
unfolding insert_device_pairing
insert_started is_user dp s =
    let (r, db) = insert_device_pairing is_user dp s.db in
    elim r [
      | err _ ↦ (err 500, with_db db s)
      | ok _ ↦ (
        ok (record { device_code = dp.device_code; user_code = dp.user_code; expires_in = 900 }),
        recorded none pairing_start dp.device_code (with_db db s),
      )
    ]

-- `Start` with a request read; the codes are `none` where their source fails.
unfoldable pub start_requested :
    (String → Bool)
    → Option String
    → Option String
    → ℕ
    → Client
    → StartRequest
    → Pairer
    → Result ℕ StartResponse × Pairer
unfolding insert_started requested
start_requested is_user none user_code now client r s = (err 500, s)
start_requested is_user (some d) none now client r s = (err 500, s)
start_requested is_user (some d) (some u) now client r s =
    insert_started is_user (started d u now client (requested r)) s

-- `Start`: the status of an error, or the response.
unfoldable pub start :
    (String → Bool)
    → Option String
    → Option String
    → ℕ
    → Client
    → Body StartRequest
    → Pairer
    → Result ℕ StartResponse × Pairer
unfolding start_requested
start is_user device_code user_code now client bad_body s = (err 400, s)
start is_user device_code user_code now client no_body s =
    start_requested is_user device_code user_code now client (record { scopes = []; admin = false })
      s
start is_user device_code user_code now client (body r) s =
    start_requested is_user device_code user_code now client r s

-- One tick of `RunSweeper`
unfoldable pub sweep : ℕ → Pairer → Pairer
unfolding expire_pending_device_pairings delete_old_device_pairings
sweep now s =
    let db = (expire_pending_device_pairings now s.db).0 in
    with_db (delete_old_device_pairings (now - pairing_retention) db).0 s
