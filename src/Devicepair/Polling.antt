-- ===== src/Devicepair/Polling.antt =====
-- internal/devicepair/api.go: `Poll`, which hands the token out.
use hooks.Prelude.{ℕ, String, Option, none, some, ltb, if◌then◌else◌, string_eq, nat_eq}
use hooks.Store.Scopes.{Scopes}
use hooks.Store.Tokens.{TokenRow, token_from_gen, get_token}
use hooks.Store.Pairings.{
  pending, approved_unfetched, done, denied, expired, blank, unknown, DevicePairing, PairingDb,
  is_unfetched, get_by_device_code, mark_device_pairing_fetched,
}
use hooks.Devicepair.{Pairer, with_db}

pub record PollResponse : Type 0 where
  pub token : String
  pub user_id : String
  pub name : String
  pub scopes : Scopes

-- An answer to a poll: its status, and the token where it is handed out.
pub data Answer : Type 0 where
  status : ℕ → Answer
  handed : PollResponse → Answer

-- `ApprovedToken`
unfoldable pub approved_token : DevicePairing → Option (String × String)
approved_token p = if is_unfetched p.status then both p.plaintext_token p.token_id else none
  where
    both : Option String → Option String → Option (String × String)
    both none _ = none
    both (some x) none = none
    both (some x) (some id) = some (x, id)

-- `derefString`
abbrev pub deref_string : Option String → String
deref_string none = ""
deref_string (some s) = s

abbrev pub respond : DevicePairing → String → Option TokenRow → Answer × Option String
respond p plaintext none = (status 500, none)
respond p plaintext (some r) = (
  handed (record {
    token = plaintext;
    user_id = deref_string p.user_id;
    name = r.name;
    scopes = (token_from_gen r).scopes;
  }),
  some p.device_code,
)

abbrev pub respond_approved :
    PairingDb → DevicePairing → Option (String × String) → Answer × Option String
respond_approved db p none = (status 500, none)
respond_approved db p (some (plaintext, id)) = respond p plaintext (get_token id db.tokens)

-- `Poll` on the row: the answer, and the device code that is marked fetched once the answer is
-- written.
unfoldable pub poll_status : ℕ → PairingDb → DevicePairing → Answer × Option String
unfolding approved_token get_token token_from_gen
poll_status now db p = elim p.status [
  | pending ↦ if ltb p.expires_at now then (status 410, none) else (status 202, none)
  | denied ↦ (status 403, none)
  | expired ↦ (status 410, none)
  | done ↦ (status 410, none)
  | approved_unfetched ↦ respond_approved db p (approved_token p)
  | blank ↦ (status 500, none)
  | unknown ↦ (status 500, none)
]

unfoldable pub poll_found : ℕ → PairingDb → Option DevicePairing → Answer × Option String
unfolding poll_status
poll_found now db none = (status 404, none)
poll_found now db (some p) = poll_status now db p

-- `Poll`
unfoldable pub poll : Option String → ℕ → Pairer → Answer × Option String
unfolding poll_found get_by_device_code
poll none now s = (status 400, none)
poll (some code) now s = poll_found now s.db (get_by_device_code code s.db.pairings)

-- The goroutine that a poll starts once its answer is written.
unfoldable pub mark_fetched : String → Pairer → Pairer
unfolding mark_device_pairing_fetched
mark_fetched code s = with_db (mark_device_pairing_fetched code s.db).1 s
