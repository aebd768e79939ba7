-- ===== src/Me.antt =====
-- internal/me/auth.go, scopes.go and handlers_tokens.go: who calls the self-service API, and the
-- tokens that a caller creates and revokes. A call gets the clock's reading in nanoseconds; what the
-- bearer authenticator yields, `none` as a body that does not decode and the generated token are
-- arguments.
pub mod Minting
mod Tests
use hooks.Prelude.{
  ℕ, ◌+◌, ◌-◌, ◌*◌, ◌%◌, ◌^◌, String, List, [], ◌∷◌, Bool, true, false, not, ◌&&◌, ◌||◌, Option,
  none, some, ltb, leb, keep, ◌==◌, if◌then◌else◌, Result, ok, err, length, string_eq, nat_eq, ℤ,
  pos, negsuc,
}
use hooks.Store.Rows.{StoreError}
use hooks.Store.Users.{User, get_user_by_id, is_activated}
use hooks.Store.Scopes.{Scopes, scope_account, member, with_scope, subset_of, held_by_user}
use hooks.Store.Tokens.{
  Token, TokenRow, TokenTable, TokenKind, InsertError, pat, listener, unset, insert_token,
  get_token, revoke, token_owned_by, list_tokens_by_owner,
}
use hooks.Tokens.{AuthError, is_pat, auth_status}

-- 365 days
abbrev pub max_token_ttl : ℕ
max_token_ttl = 365 * 24 * 3600 * 10 ^ 9

pub record Caller : Type 0 where
  pub account : User
  pub bearer : Option Token

pub data CallerError : Type 0 where
  anonymous kind_mismatch ownerless account_deactivated : CallerError
  not_resolved : AuthError → CallerError

abbrev pub active_caller : Token → Option User → Result CallerError Caller
active_caller t none = err ownerless
active_caller t (some u) =
    if is_activated u then ok (record { account = u; bearer = some t }) else err account_deactivated

-- `resolveCaller` on the owner of the token
unfoldable pub caller_owner : List User → Token → Option String → Result CallerError Caller
unfolding get_user_by_id
caller_owner users t none = err ownerless
caller_owner users t (some owner) = active_caller t (get_user_by_id owner users)

-- `resolveCaller` on what the bearer authenticator yields; `none` without one
unfoldable pub caller_bearer :
    List User → Option (Result AuthError Token) → Result CallerError Caller
unfolding caller_owner
caller_bearer users none = err anonymous
caller_bearer users (some (err e)) = err (not_resolved e)
caller_bearer users (some (ok t)) =
    if not (is_pat t.kind) then err kind_mismatch else caller_owner users t t.owner_user_id

-- `resolveCaller`: the user of the session first
unfoldable pub resolve_caller :
    List User → Option User → Option (Result AuthError Token) → Result CallerError Caller
unfolding caller_bearer
resolve_caller users (some u) bearer = ok (record { account = u; bearer = none })
resolve_caller users none bearer = caller_bearer users bearer

-- `writeAuthErr`
abbrev pub caller_status : CallerError → ℕ
caller_status anonymous = 401
caller_status kind_mismatch = 403
caller_status ownerless = 403
caller_status account_deactivated = 403
caller_status (not_resolved e) = auth_status e

-- `Normalize`, with the names seen so far
unfoldable pub normalize_from : Scopes → Scopes → Scopes
normalize_from seen [] = []
normalize_from seen (s ∷ scopes) =
    let dropped = s == "" || member s seen in
    let rest = normalize_from (if dropped then seen else s ∷ seen) scopes in
    if dropped then rest else s ∷ rest

-- `Normalize`
unfoldable pub normalize : Scopes → Scopes
unfolding normalize_from
normalize scopes = normalize_from [] scopes

-- `kind` of a request: `unset` where it is empty, `none` for another text
pub record CreateTokenRequest : Type 0 where
  pub name : String
  pub scopes : Scopes
  pub kind : Option TokenKind
  pub ephemeral : Bool
  pub expires_in_seconds : ℤ

-- The tokens and what was recorded in the audit log, the newest first.
pub data TokenAction : Type 0 where
  token_create token_revoke : TokenAction

pub record TokenEntry : Type 0 where
  pub actor_user : String
  pub actor_token : Option String
  pub action : TokenAction
  pub target_id : String

pub record Keeper : Type 0 where
  pub tokens : TokenTable
  pub audit : List TokenEntry

abbrev pub bearer_id : Option Token → Option String
bearer_id none = none
bearer_id (some t) = some t.id

abbrev pub logged : Caller → TokenAction → String → Keeper → Keeper
logged c action target s = record s {
  audit =
      (record {
        actor_user = c.account.id;
        actor_token = bearer_id c.bearer;
        action = action;
        target_id = target;
      })
      ∷ s.audit;
}

abbrev pub or_pat_kind : TokenKind → TokenKind
or_pat_kind unset = pat
or_pat_kind pat = pat
or_pat_kind listener = listener

-- A number of seconds as a `time.Duration`: the residue of the nanoseconds below 2 ^ 64.
abbrev pub ttl_bits : ℕ → ℕ
ttl_bits n = (n * 10 ^ 9) % 2 ^ 64

-- The expiry that a request asks for: from 2 ^ 63 on the residue stands for a negative duration. A
-- time before 1970 stands as 0.
abbrev pub token_expiry : ℕ → ℤ → Option ℕ
token_expiry now (negsuc n) = none
token_expiry now (pos n) =
    let bits = ttl_bits n in
    if n == 0
    then none
    else if leb (2 ^ 63) bits
    then some (now - (2 ^ 64 - bits))
    else if ltb max_token_ttl bits
    then some (now + max_token_ttl)
    else some (now + bits)

-- `tokens.Generate`: an id and the hash of the secret
pub record Generated : Type 0 where
  pub id : String
  pub hash : String

unfoldable pub minted_scopes : TokenKind → Scopes → Scopes
unfolding with_scope
minted_scopes pat scopes = with_scope scopes scope_account
minted_scopes listener scopes = scopes
minted_scopes unset scopes = scopes

abbrev pub created_token : Caller → Generated → TokenKind → Scopes → CreateTokenRequest → ℕ → Token
created_token c g kind scopes r now = record {
  id = g.id;
  name = r.name;
  scopes = scopes;
  secret_hash = g.hash;
  created_at = now;
  last_used_at = none;
  revoked_at = none;
  owner_user_id = some c.account.id;
  kind = kind;
  ephemeral = r.ephemeral;
  expires_at = token_expiry now r.expires_in_seconds;
}

abbrev pub inserted :
    Caller → Token → Keeper → Result InsertError Unit × TokenTable → Result ℕ Token × Keeper
inserted c t s (err _, rows) = (err 500, record s { tokens = rows })
inserted c t s (ok _, rows) = (ok t, logged c token_create t.id (record s { tokens = rows }))

-- `CreateToken` from the generation of the token on
unfoldable pub mint_token :
    (String → Bool)
    → Caller
    → Option Generated
    → TokenKind
    → Scopes
    → CreateTokenRequest
    → ℕ
    → Keeper
    → Result ℕ Token × Keeper
unfolding insert_token
mint_token is_user c none kind scopes r now s = (err 500, s)
mint_token is_user c (some g) kind scopes r now s =
    let t = created_token c g kind scopes r now in inserted c t s (insert_token is_user t s.tokens)

-- `CreateToken` with a kind that is known
unfoldable pub create_kind :
    (String → Bool)
    → Caller
    → Option Generated
    → TokenKind
    → CreateTokenRequest
    → ℕ
    → Keeper
    → Result ℕ Token × Keeper
unfolding mint_token normalize subset_of held_by_user minted_scopes
create_kind is_user c g kind r now s =
    let scopes = normalize r.scopes in
    if length scopes == 0
    then (err 400, s)
    else if not (subset_of scopes (held_by_user c.account))
    then (err 403, s)
    else mint_token is_user c g kind (minted_scopes kind scopes) r now s

-- `CreateToken` on the kind of the request
unfoldable pub create_named :
    (String → Bool)
    → Caller
    → Option Generated
    → CreateTokenRequest
    → ℕ
    → Keeper
    → Option TokenKind
    → Result ℕ Token × Keeper
unfolding create_kind
create_named is_user c g r now s none = (err 400, s)
create_named is_user c g r now s (some k) = create_kind is_user c g (or_pat_kind k) r now s

-- `CreateToken`: the status of a refusal, or the token
unfoldable pub create_token :
    (String → Bool)
    → Result CallerError Caller
    → Option Generated
    → Option CreateTokenRequest
    → ℕ
    → Keeper
    → Result ℕ Token × Keeper
unfolding create_named
create_token is_user (err e) g r now s = (err (caller_status e), s)
create_token is_user (ok c) g none now s = (err 400, s)
create_token is_user (ok c) g (some r) now s =
    if r.name == "" then (err 400, s) else create_named is_user c g r now s r.kind

abbrev pub revoked_answer :
    Caller → String → Keeper → Result StoreError Unit × TokenTable → ℕ × Keeper
revoked_answer c id s (_, rows) = (204, logged c token_revoke id (record s { tokens = rows }))

-- `RevokeToken` on the row; a token that is revoked already answers the same.
unfoldable pub revoke_row : Caller → String → ℕ → Keeper → Option TokenRow → ℕ × Keeper
unfolding revoke
revoke_row c id now s none = (404, s)
revoke_row c id now s (some r) =
    if not (token_owned_by c.account.id r)
    then (404, s)
    else revoked_answer c id s (revoke id now s.tokens)

-- The id that a path names: `self` is the bearer's.
abbrev pub named_id : Caller → String → Option String
named_id c path = if path == "self" then bearer_id c.bearer else some path

unfoldable pub revoke_named : Caller → ℕ → Keeper → Option String → ℕ × Keeper
unfolding revoke_row get_token
revoke_named c now s none = (400, s)
revoke_named c now s (some id) = revoke_row c id now s (get_token id s.tokens)

-- `RevokeToken`: the status
unfoldable pub revoke_own_token : Result CallerError Caller → String → ℕ → Keeper → ℕ × Keeper
unfolding revoke_named
revoke_own_token (err e) path now s = (caller_status e, s)
revoke_own_token (ok c) path now s = revoke_named c now s (named_id c path)

abbrev is_listener : TokenKind → Bool
is_listener listener = true
is_listener pat = false
is_listener unset = false

-- The kind that a listing asks for: `some unset` without one, `none` for another text
abbrev pub kind_passes : Option TokenKind → Token → Bool
kind_passes none t = false
kind_passes (some unset) t = true
kind_passes (some pat) t = is_pat t.kind
kind_passes (some listener) t = is_listener t.kind

-- `ListTokens`: the status of a refusal, or the tokens
unfoldable pub list_own_tokens :
    Result CallerError Caller → Bool → Option TokenKind → TokenTable → Result ℕ (List Token)
unfolding list_tokens_by_owner
list_own_tokens (err e) include_revoked kind rows = err (caller_status e)
list_own_tokens (ok c) include_revoked kind rows =
    ok (keep (kind_passes kind) (list_tokens_by_owner c.account.id include_revoked rows))
