-- ===== src/Store/Pairings.antt =====
-- internal/store/device_pairings_store.go, over the queries of sqlcgen/device_pairings.sql.go. The
-- table is the list of its rows in the order of insertion; the scopes that its column holds as JSON
-- are their list. Times are nanoseconds.
pub mod Lifecycle
pub mod Transitions
pub mod Statements
use hooks.Prelude.{
  ℕ, String, List, [], ◌∷◌, ◌++◌, map, Bool, true, false, not, ◌&&◌, ◌||◌, Option, none, some, ltb,
  ◌==◌, if◌then◌else◌, Result, ok, err, keep, any, find?, length, string_eq, nat_eq,
}
use hooks.Store.Rows.{StoreError, not_found, set_where, update_where}
use hooks.Store.Tokens.{
  Token, TokenKind, TokenRow, TokenTable, pat, listener, unset, row_of_token, token_is,
  token_owner_known,
}

-- `unknown` stands for any other text.
pub data PairingStatus : Type 0 where
  pending approved_unfetched done denied expired blank unknown : PairingStatus

pub record DevicePairing : Type 0 where
  pub device_code : String
  pub user_code : String
  pub status : PairingStatus
  pub created_at : ℕ
  pub expires_at : ℕ
  pub user_id : Option String
  pub requesting_ip : String
  pub requesting_user_agent : String
  pub requested_scopes : List String
  pub plaintext_token : Option String
  pub token_id : Option String

abbrev pub PairingTable : Type 0
PairingTable = List DevicePairing

pub data PairingError : Type 0 where
  empty_argument pairing_refused pairing_not_found : PairingError

-- The tables that an approval touches.
pub record PairingDb : Type 0 where
  pub pairings : PairingTable
  pub tokens : TokenTable

abbrev pub is_pending : PairingStatus → Bool
is_pending pending = true
is_pending _ = false

abbrev pub is_unfetched : PairingStatus → Bool
is_unfetched approved_unfetched = true
is_unfetched _ = false

-- status IN ('done','denied','expired')
abbrev pub is_terminal : PairingStatus → Bool
is_terminal done = true
is_terminal denied = true
is_terminal expired = true
is_terminal _ = false

-- The CHECK on the status column.
abbrev pub status_allowed : PairingStatus → Bool
status_allowed blank = false
status_allowed unknown = false
status_allowed _ = true

abbrev pub or_pending : PairingStatus → PairingStatus
or_pending blank = pending
or_pending s = s

abbrev pub device_is : String → DevicePairing → Bool
device_is code p = p.device_code == code

abbrev pub user_code_is : String → DevicePairing → Bool
user_code_is code p = p.user_code == code

abbrev pub token_known : TokenTable → Option String → Bool
token_known tokens none = true
token_known tokens (some id) = any (token_is id) tokens

-- What the constraints of the table refuse.
abbrev pub pairing_conflicts : (String → Bool) → DevicePairing → PairingDb → Bool
pairing_conflicts is_user p db =
    any (device_is p.device_code) db.pairings
    || any (user_code_is p.user_code) db.pairings
    || not (status_allowed p.status)
    || not (token_owner_known is_user p.user_id)
    || not (token_known db.tokens p.token_id)

-- `InsertDevicePairing`
unfoldable pub insert_device_pairing :
    (String → Bool) → DevicePairing → PairingDb → Result PairingError Unit × PairingDb
insert_device_pairing is_user dp db =
    let row : DevicePairing = record dp { status = or_pending dp.status } in
    if dp.device_code == "" || dp.user_code == ""
    then (err empty_argument, db)
    else if pairing_conflicts is_user row db
    then (err pairing_refused, db)
    else (ok tt, record db { pairings = db.pairings ++ row ∷ [] })

unfoldable pub get_by_device_code : String → PairingTable → Option DevicePairing
get_by_device_code code = find? (device_is code)

unfoldable pub get_by_user_code : String → PairingTable → Option DevicePairing
get_by_user_code code = find? (user_code_is code)

abbrev or_pat : TokenKind → TokenKind
or_pat unset = pat
or_pat pat = pat
or_pat listener = listener

-- The row of the token that an approval mints.
abbrev pub minted : Token → String → ℕ → TokenRow
minted t approver now =
    row_of_token
      (record t { created_at = now; owner_user_id = some approver; kind = or_pat t.kind })

abbrev pub awaits : String → DevicePairing → Bool
awaits code p = user_code_is code p && is_pending p.status

abbrev pub approved : String → String → String → DevicePairing → DevicePairing
approved approver plaintext token p = record p {
  status = approved_unfetched;
  user_id = some approver;
  plaintext_token = some plaintext;
  token_id = some token;
}

-- `ApproveDevicePairing`; a path that returns an error rolls the transaction back.
unfoldable pub approve_device_pairing :
    (String → Bool)
    → String
    → Token
    → String
    → String
    → ℕ
    → PairingDb
    → Result PairingError Unit × PairingDb
approve_device_pairing is_user code t plaintext approver now db =
    if code == "" || t.id == ""
    then (err empty_argument, db)
    else if any (token_is t.id) db.tokens || not (is_user approver)
    then (err pairing_refused, db)
    else if not (any (awaits code) db.pairings)
    then (err pairing_not_found, db)
    else (
      ok tt,
      record {
        pairings = set_where (awaits code) (approved approver plaintext t.id) db.pairings;
        tokens = db.tokens ++ minted t approver now ∷ [];
      },
    )

-- A query that meets no row is `ErrNotFound`.
abbrev pub update_pairing :
    (DevicePairing → Bool)
    → (DevicePairing → DevicePairing)
    → PairingDb
    → Result PairingError Unit × PairingDb
update_pairing p f db =
    if any p db.pairings
    then (ok tt, record db { pairings = set_where p f db.pairings })
    else (err pairing_not_found, db)

-- `DenyDevicePairing`
unfoldable pub deny_device_pairing :
    (String → Bool) → String → String → PairingDb → Result PairingError Unit × PairingDb
deny_device_pairing is_user code by db =
    if any (awaits code) db.pairings && not (is_user by)
    then (err pairing_refused, db)
    else update_pairing (awaits code) (λ p. record p { status = denied; user_id = some by }) db

-- `MarkDevicePairingFetched`
unfoldable pub mark_device_pairing_fetched :
    String → PairingDb → Result PairingError Unit × PairingDb
mark_device_pairing_fetched code =
    update_pairing (λ p. device_is code p && is_unfetched p.status)
      λ p. record p { status = done; plaintext_token = none }

-- `ExpirePendingDevicePairings`, with the count it reports.
unfoldable pub expire_pending_device_pairings : ℕ → PairingDb → PairingDb × ℕ
expire_pending_device_pairings before db =
    let stale : DevicePairing → Bool = λ p. is_pending p.status && ltb p.expires_at before in
    (
      record db { pairings = set_where stale (λ p. record p { status = expired }) db.pairings },
      length (keep stale db.pairings),
    )

-- `DeleteOldDevicePairings`, with the count it reports.
unfoldable pub delete_old_device_pairings : ℕ → PairingDb → PairingDb × ℕ
delete_old_device_pairings before db =
    let old : DevicePairing → Bool = λ p. is_terminal p.status && ltb p.created_at before in
    (record db { pairings = keep (λ p. not (old p)) db.pairings }, length (keep old db.pairings))
