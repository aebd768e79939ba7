-- ===== src/Tokens.antt =====
-- internal/tokens/middleware.go, and `ParseScopes` of tokens.go: who a bearer token lets in. Times
-- are nanoseconds. A request is its headers.
pub mod Access
pub mod Touch
mod Tests
use hooks.Prelude.{
  ℕ, ◌+◌, ◌*◌, ◌^◌, String, List, [], ◌∷◌, ◌++◌, map, Bool, true, false, not, ◌&&◌, Option, none,
  some, ltb, ◌==◌, if◌then◌else◌, keep, Result, ok, err, find?, string_eq, trim_space, split_on,
  cut_prefix, ◌>>=◌,
}
use hooks.Sources.{HttpHeaders, header_get}
use hooks.Store.Scopes.{Scopes, scope_admin, has_scope, member}
use hooks.Store.Tokens.{
  Token, TokenKind, TokenTable, HashLookup, pat, listener, unset, lookup_by_plaintext,
  touch_last_used,
}

pub data AuthError : Type 0 where
  invalid_token missing_token forbidden : AuthError

-- One minute
abbrev pub touch_interval : ℕ
touch_interval = 60 * 10 ^ 9

-- `Authenticator`, with the table behind its store; `write_ok` says which writes of a use succeed.
pub record Authenticator : Type 0 where
  pub tokens : TokenTable
  pub last_touched_at : List (String × ℕ)
  pub write_ok : String → ℕ → Bool

abbrev pub skip : Scopes → String → Bool
skip seen p = if p == "" then true else member p seen

-- The loop of `ParseScopes`, with the names seen so far.
unfoldable pub parse_scopes_from : Scopes → List String → Scopes
unfolding trim_space
parse_scopes_from seen [] = []
parse_scopes_from seen (part ∷ parts) =
    let p = trim_space part in
    let rest = parse_scopes_from (if skip seen p then seen else p ∷ seen) parts in
    if skip seen p then rest else p ∷ rest

-- `ParseScopes`
unfoldable pub parse_scopes : String → Scopes
unfolding parse_scopes_from split_on
parse_scopes text = if text == "" then [] else parse_scopes_from [] (split_on b',' text)

unfoldable pub extract_bearer : HttpHeaders → Result AuthError String
unfolding header_get cut_prefix trim_space
extract_bearer headers =
    let h = header_get "Authorization" headers in
    if h == "" then err missing_token else elim (cut_prefix "Bearer " h) [
      | none ↦ err invalid_token
      | some rest ↦ ok (trim_space rest)
    ]

-- Whether a minute has gone by since the last write for the token.
abbrev pub due : String → ℕ → List (String × ℕ) → Bool
due id now touched = elim (find? (λ e. e.0 == id) touched) [
  | none ↦ true
  | some (_, prev) ↦ not (ltb now (prev + touch_interval))
]

-- `maybeTouch`
unfoldable pub maybe_touch : String → ℕ → Authenticator → Authenticator
unfolding touch_last_used
maybe_touch id now a =
    if due id now a.last_touched_at
    then record a {
      tokens = if a.write_ok id now then touch_last_used id now a.tokens else a.tokens;
      last_touched_at = (id, now) ∷ a.last_touched_at;
    }
    else a

abbrev pub is_expired : ℕ → Token → Bool
is_expired now t = elim t.expires_at [ none ↦ false | some e ↦ ltb e now ]

abbrev pub is_revoked : Token → Bool
is_revoked t = elim t.revoked_at [ none ↦ false | some _ ↦ true ]

-- The guards on the token found, and the write of its use.
unfoldable pub admit : ℕ → ℕ → Token → Authenticator → Result AuthError Token × Authenticator
unfolding maybe_touch
admit now later t a =
    if is_revoked t
    then (err invalid_token, a)
    else if is_expired now t
    then (err invalid_token, a)
    else (ok t, maybe_touch t.id later a)

unfoldable pub resolve_found :
    ℕ → ℕ → Option Token → Authenticator → Result AuthError Token × Authenticator
unfolding admit
resolve_found now later none a = (err invalid_token, a)
resolve_found now later (some t) a = admit now later t a

-- `ResolvePlaintext`; `now` and `later` are its two readings of the clock.
unfoldable pub resolve_plaintext :
    Option HashLookup → ℕ → ℕ → String → Authenticator → Result AuthError Token × Authenticator
unfolding resolve_found lookup_by_plaintext
resolve_plaintext hash now later plaintext a =
    if plaintext == ""
    then (err missing_token, a)
    else resolve_found now later (lookup_by_plaintext hash plaintext a.tokens) a

unfoldable pub resolve_given :
    Option HashLookup
    → ℕ
    → ℕ
    → Result AuthError String
    → Authenticator
    → Result AuthError Token × Authenticator
unfolding resolve_plaintext
resolve_given hash now later (err e) a = (err e, a)
resolve_given hash now later (ok plaintext) a = resolve_plaintext hash now later plaintext a

-- `Resolve`
unfoldable pub resolve :
    Option HashLookup → ℕ → ℕ → HttpHeaders → Authenticator → Result AuthError Token × Authenticator
unfolding resolve_given extract_bearer
resolve hash now later headers a = resolve_given hash now later (extract_bearer headers) a

abbrev pub is_pat : TokenKind → Bool
is_pat pat = true
is_pat listener = false
is_pat unset = false

abbrev pub check_source : String → Token → Result AuthError Token
check_source source t =
    if is_pat t.kind
    then err forbidden
    else if has_scope t.scopes source
    then ok t
    else err forbidden

-- `AuthorizeSource`
unfoldable pub authorize_source :
    Option HashLookup
    → ℕ
    → ℕ
    → HttpHeaders
    → String
    → Authenticator
    → Result AuthError Token × Authenticator
unfolding resolve has_scope
authorize_source hash now later headers source a =
    let (found, b) = resolve hash now later headers a in (found >>= check_source source, b)

abbrev pub check_scope : String → Token → Result AuthError Token
check_scope scope t = if has_scope t.scopes scope then ok t else err forbidden

-- `RequireScope`: what it passes to the handler behind it.
unfoldable pub require_scope :
    Option HashLookup
    → ℕ
    → ℕ
    → HttpHeaders
    → String
    → Authenticator
    → Result AuthError Token × Authenticator
unfolding resolve has_scope
require_scope hash now later headers scope a =
    let (found, b) = resolve hash now later headers a in (found >>= check_scope scope, b)

-- `AuthorizeAdmin`
unfoldable pub authorize_admin :
    Option HashLookup → ℕ → ℕ → HttpHeaders → Authenticator → Result AuthError Token × Authenticator
unfolding require_scope
authorize_admin hash now later headers a = require_scope hash now later headers scope_admin a

-- `writeAuthError`
abbrev pub auth_status : AuthError → ℕ
auth_status forbidden = 403
auth_status invalid_token = 401
auth_status missing_token = 401
