-- ===== src/Store/Tokens.antt =====
-- internal/store/sqlite.go: the listener tokens, over the queries of sqlcgen/tokens.sql.go. The
-- table is the list of its rows in the order of insertion; times are nanoseconds. `is_user` says
-- which ids the users table holds. No query deletes a row.
pub mod Revocation
pub mod Lookup
mod Tests
use hooks.Prelude.{
  ℕ, ◌+◌, String, List, [], ◌∷◌, ◌++◌, map, Bool, true, false, not, ◌&&◌, ◌||◌, Option, none, some,
  ltb, leb, ◌==◌, if◌then◌else◌, Result, ok, err, keep, any, find?, length, string_eq, nat_eq, join,
  trim_space, split_on,
}
use hooks.Store.Rows.{StoreError, constraint_failed, set_where, update_where}

pub data TokenKind : Type 0 where
  pat listener : TokenKind
  unset : TokenKind

-- A row of `listener_tokens`
pub record TokenRow : Type 0 where
  pub id : String
  pub name : String
  pub scopes : String
  pub secret_hash : String
  pub created_at : ℕ
  pub last_used_at : Option ℕ
  pub revoked_at : Option ℕ
  pub owner_user_id : Option String
  pub kind : TokenKind
  pub ephemeral : Bool
  pub expires_at : Option ℕ

pub record Token : Type 0 where
  pub id : String
  pub name : String
  pub scopes : List String
  pub secret_hash : String
  pub created_at : ℕ
  pub last_used_at : Option ℕ
  pub revoked_at : Option ℕ
  pub owner_user_id : Option String
  pub kind : TokenKind
  pub ephemeral : Bool
  pub expires_at : Option ℕ

abbrev pub TokenTable : Type 0
TokenTable = List TokenRow

-- `splitScopes`: the parts between commas, trimmed, without the empty ones.
unfoldable pub split_scopes : String → List String
unfolding trim_space split_on
split_scopes s =
    if s == "" then [] else keep (λ p. not (p == "")) (map trim_space (split_on b',' s))

unfoldable pub token_from_gen : TokenRow → Token
unfolding split_scopes
token_from_gen r = record {
  id = r.id;
  name = r.name;
  scopes = split_scopes r.scopes;
  secret_hash = r.secret_hash;
  created_at = r.created_at;
  last_used_at = r.last_used_at;
  revoked_at = r.revoked_at;
  owner_user_id = r.owner_user_id;
  kind = r.kind;
  ephemeral = r.ephemeral;
  expires_at = r.expires_at;
}

abbrev pub token_is : String → TokenRow → Bool
token_is id r = r.id == id

abbrev pub is_unrevoked : TokenRow → Bool
is_unrevoked r = elim r.revoked_at [ none ↦ true | some _ ↦ false ]

abbrev pub token_owned_by : String → TokenRow → Bool
token_owned_by owner r = elim r.owner_user_id [ none ↦ false | some u ↦ u == owner ]

abbrev is_system_token : TokenRow → Bool
is_system_token r = elim r.owner_user_id [ none ↦ true | some _ ↦ false ]

abbrev pub token_owner_known : (String → Bool) → Option String → Bool
token_owner_known is_user none = true
token_owner_known is_user (some u) = is_user u

-- The row of a token; the query leaves the last use and the revocation NULL.
abbrev pub row_of_token : Token → TokenRow
row_of_token t = record {
  id = t.id;
  name = t.name;
  scopes = join "," t.scopes;
  secret_hash = t.secret_hash;
  created_at = t.created_at;
  last_used_at = none;
  revoked_at = none;
  owner_user_id = t.owner_user_id;
  kind = t.kind;
  ephemeral = t.ephemeral;
  expires_at = t.expires_at;
}

pub data InsertError : Type 0 where
  token_kind_required token_refused : InsertError

abbrev pub kind_given : TokenKind → Bool
kind_given pat = true
kind_given listener = true
kind_given unset = false

-- `Insert`
unfoldable pub insert_token :
    (String → Bool) → Token → TokenTable → Result InsertError Unit × TokenTable
unfolding join
insert_token is_user t rows =
    if not (kind_given t.kind)
    then (err token_kind_required, rows)
    else if any (token_is t.id) rows || not (token_owner_known is_user t.owner_user_id)
    then (err token_refused, rows)
    else (ok tt, rows ++ row_of_token t ∷ [])

-- `tokenHash`: whether the plaintext matches a hash; `none` for a hash that cannot be read.
abbrev pub HashLookup : Type 0
HashLookup = String → String → Option Bool

abbrev pub hash_matches : HashLookup → String → TokenRow → Bool
hash_matches compare plaintext r = elim (compare plaintext r.secret_hash) [
  | none ↦ false
  | some b ↦ b
]

-- The loop of `LookupByPlaintext` over the active rows.
unfoldable pub first_match : HashLookup → String → TokenTable → Option Token
unfolding token_from_gen
first_match compare plaintext [] = none
first_match compare plaintext (r ∷ rows) =
    let rest = first_match compare plaintext rows in
    if hash_matches compare plaintext r then some (token_from_gen r) else rest

-- `LookupByPlaintext`; `none` as the first argument: no hash function was set.
unfoldable pub lookup_by_plaintext : Option HashLookup → String → TokenTable → Option Token
unfolding first_match
lookup_by_plaintext none plaintext rows = none
lookup_by_plaintext (some compare) plaintext rows =
    first_match compare plaintext (keep is_unrevoked rows)

unfoldable pub touch_last_used : String → ℕ → TokenTable → TokenTable
touch_last_used id now = set_where (token_is id) λ r. record r { last_used_at = some now }

unfoldable pub get_token : String → TokenTable → Option TokenRow
get_token id = find? (token_is id)

-- Only a row that is not revoked is met.
unfoldable pub revoke : String → ℕ → TokenTable → Result StoreError Unit × TokenTable
revoke id now =
    update_where (λ r. token_is id r && is_unrevoked r) λ r. record r { revoked_at = some now }

unfoldable pub revoke_tokens_by_owner : String → ℕ → TokenTable → TokenTable × ℕ
revoke_tokens_by_owner owner now rows =
    let met : TokenRow → Bool = λ r. token_owned_by owner r && is_unrevoked r in
    (set_where met (λ r. record r { revoked_at = some now }) rows, length (keep met rows))

-- The last use of a token, and its creation where it was never used.
abbrev pub last_seen : TokenRow → ℕ
last_seen r = elim r.last_used_at [ none ↦ r.created_at | some t ↦ t ]

unfoldable pub expire_ephemeral_tokens_idle : ℕ → ℕ → TokenTable → TokenTable × ℕ
expire_ephemeral_tokens_idle now cutoff rows =
    let met : TokenRow → Bool = λ r. r.ephemeral && is_unrevoked r && ltb (last_seen r) cutoff in
    (set_where met (λ r. record r { revoked_at = some now }) rows, length (keep met rows))

unfoldable pub update_token_owner :
    (String → Bool) → String → Option String → TokenTable → Result StoreError Unit × TokenTable
update_token_owner is_user id owner rows =
    if any (token_is id) rows && not (token_owner_known is_user owner)
    then (err constraint_failed, rows)
    else update_where (token_is id) (λ r. record r { owner_user_id = owner }) rows

insert_newest_first : TokenRow → TokenTable → TokenTable
insert_newest_first r [] = r ∷ []
insert_newest_first r (x ∷ xs) =
    let rest = x ∷ insert_newest_first r xs in
    if leb x.created_at r.created_at then r ∷ x ∷ xs else rest

-- ORDER BY created_at DESC
pub newest_first : TokenTable → TokenTable
unfolding insert_newest_first
newest_first [] = []
newest_first (r ∷ rows) = insert_newest_first r (newest_first rows)

unfoldable pub list_tokens : Bool → TokenTable → List Token
unfolding newest_first token_from_gen
list_tokens include_revoked rows =
    map token_from_gen (newest_first (keep (λ r. include_revoked || is_unrevoked r) rows))

unfoldable pub list_tokens_by_owner : String → Bool → TokenTable → List Token
unfolding newest_first token_from_gen
list_tokens_by_owner owner include_revoked rows =
    map token_from_gen (
      newest_first (keep (λ r. token_owned_by owner r && (include_revoked || is_unrevoked r)) rows))

unfoldable pub list_system_tokens : Bool → TokenTable → List Token
unfolding newest_first token_from_gen
list_system_tokens include_revoked rows =
    map token_from_gen
      (newest_first (keep (λ r. is_system_token r && (include_revoked || is_unrevoked r)) rows))
