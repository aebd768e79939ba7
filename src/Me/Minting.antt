-- ===== src/Me/Minting.antt =====
-- internal/me/handlers_tokens.go: what `CreateToken` mints.
use hooks.Prelude.{
  ℕ, ◌+◌, ◌≤◌, ◌≡◌, ◌≢◌, ◌⊎◌, refl, sym, ap, ◌∙◌, subst, inl, inr, String, [], ◌∷◌, ◌++◌, Bool,
  true, false, ◌||◌, Option, none, some, arith, ◌==◌, ok, Has, Bool-cases, string_eq, nat_eq,
  length, ℤ, pos, negsuc,
}
use hooks.Store.Scopes.{Scopes, scope_account, member, subset_of, held_by_user}
use hooks.Store.Scopes.Authority.{MayGrant, Has-with_scope, held_by_user-MayGrant}
use hooks.Store.Tokens.{Token, TokenKind, pat, listener, unset, insert_token, row_of_token}
use hooks.Me.{
  Caller, CreateTokenRequest, Keeper, Generated, max_token_ttl, token_expiry, minted_scopes,
  normalize_from, normalize, created_token, inserted, mint_token, create_kind, create_named,
  create_token, or_pat_kind,
}

normalize_from-Has :
    (name : String) (seen scopes : Scopes) → Has name (normalize_from seen scopes) → Has name scopes
unfolding normalize_from
normalize_from-Has name seen [] h = h
normalize_from-Has name seen (s ∷ scopes) h = elim (Bool-cases (s == "" || member s seen)) [
  | inl e ↦ inr (normalize_from-Has name seen scopes (rw e at h))
  | inr e ↦ elim (rw e at h) [
    | inl q ↦ inl q
    | inr m ↦ inr (normalize_from-Has name (s ∷ seen) scopes m)
  ]
]

minted_scopes-Has :
    (kind : TokenKind) (name : String) (scopes : Scopes)
    → Has name (minted_scopes kind scopes)
    → Has name scopes ⊎ (name ≡ scope_account)
unfolding minted_scopes
minted_scopes-Has pat name scopes h = Has-with_scope name scope_account scopes h
minted_scopes-Has listener name scopes h = inl h
minted_scopes-Has unset name scopes h = inl h

token_expiry-le :
    (now e : ℕ) (seconds : ℤ) → token_expiry now seconds ≡ some e → e ≤ now + max_token_ttl
token_expiry-le now e (negsuc n) h = ground (arith, h)
token_expiry-le now e (pos n) h = ground (arith, h)

-- The minted token: the caller's, of a kind that is known, with scopes that were asked for (and the
-- account's, on a personal token), all of which the caller may grant.
abbrev pub Minted : Caller → CreateTokenRequest → ℕ → Token → Type 0
Minted c r now t =
    (t.owner_user_id ≡ some c.account.id)
    × (t.kind ≢ unset)
    × MayGrant c.account (normalize r.scopes)
    × ((name : String) → Has name t.scopes → Has name r.scopes ⊎ (name ≡ scope_account))
    × ((e : ℕ) → t.expires_at ≡ some e → e ≤ now + max_token_ttl)

inserted-ok :
    (is_user : String → Bool) (c : Caller) (v t : Token) (s : Keeper)
    → (inserted c v s (insert_token is_user v s.tokens)).0 ≡ ok t
    → (t ≡ v)
      × ((inserted c v s (insert_token is_user v s.tokens)).1.tokens
          ≡ s.tokens ++ row_of_token v ∷ [])
unfolding insert_token
inserted-ok is_user c v t s h = (ground arith, ground arith)

mint_token-ok :
    (is_user : String → Bool) (c : Caller) (g : Option Generated) (kind : TokenKind)
    (scopes : Scopes) (r : CreateTokenRequest) (now : ℕ) (s : Keeper) (t : Token)
    → (mint_token is_user c g kind scopes r now s).0 ≡ ok t
    → (x : Generated) × (t ≡ created_token c x kind scopes r now)
      × ((mint_token is_user c g kind scopes r now s).1.tokens ≡ s.tokens ++ row_of_token t ∷ [])
unfolding mint_token
mint_token-ok is_user c none kind scopes r now s t h = absurd (ground (arith, h))
mint_token-ok is_user c (some x) kind scopes r now s t h =
    let (same, after) = inserted-ok is_user c (created_token c x kind scopes r now) t s h in
    (x, same, after ∙ ap (λ v. s.tokens ++ row_of_token v ∷ []) (sym same))

-- A token created from what was asked and may be granted is as it should be.
created_token-Minted :
    (c : Caller) (x : Generated) (kind : TokenKind) (r : CreateTokenRequest) (now : ℕ)
    → kind ≢ unset
    → subset_of (normalize r.scopes) (held_by_user c.account) ≡ true
    → Minted c r now (created_token c x kind (minted_scopes kind (normalize r.scopes)) r now)
unfolding normalize
created_token-Minted c x kind r now k held = (
  refl,
  k,
  held_by_user-MayGrant c.account (normalize r.scopes) held,
  (λ name m. elim (minted_scopes-Has kind name (normalize r.scopes) m) [
    | inl h ↦ inl (normalize_from-Has name [] r.scopes h)
    | inr e ↦ inr e
  ]),
  λ e h. token_expiry-le now e r.expires_in_seconds h,
)

create_kind-Minted :
    (is_user : String → Bool) (c : Caller) (g : Option Generated) (kind : TokenKind)
    (r : CreateTokenRequest) (now : ℕ) (s : Keeper) (t : Token)
    → kind ≢ unset
    → (create_kind is_user c g kind r now s).0 ≡ ok t
    → Minted c r now t
      × ((create_kind is_user c g kind r now s).1.tokens ≡ s.tokens ++ row_of_token t ∷ [])
unfolding create_kind
create_kind-Minted is_user c g kind r now s t k h =
    let some_scopes : (length (normalize r.scopes) == 0) ≡ false = ground arith in
    let held : subset_of (normalize r.scopes) (held_by_user c.account) ≡ true = ground arith in
    let same : create_kind is_user c g kind r now s
        ≡ mint_token is_user c g kind (minted_scopes kind (normalize r.scopes)) r now s =
      ground arith in
    let (x, made, after) =
      mint_token-ok is_user c g kind (minted_scopes kind (normalize r.scopes)) r now s t
        (ap (λ a. a.0) (sym same) ∙ h) in
    (
      subst (Minted c r now) (sym made) (created_token-Minted c x kind r now k held),
      ap (λ a. a.1.tokens) same ∙ after,
    )

or_pat_kind-given : (k : TokenKind) → or_pat_kind k ≢ unset
or_pat_kind-given unset e = ground (arith, e)
or_pat_kind-given pat e = ground (arith, e)
or_pat_kind-given listener e = ground (arith, e)

create_named-Minted :
    (is_user : String → Bool) (c : Caller) (g : Option Generated) (r : CreateTokenRequest) (now : ℕ)
    (s : Keeper) (t : Token) (k : Option TokenKind)
    → (create_named is_user c g r now s k).0 ≡ ok t
    → Minted c r now t
      × ((create_named is_user c g r now s k).1.tokens ≡ s.tokens ++ row_of_token t ∷ [])
unfolding create_named
create_named-Minted is_user c g r now s t none h = absurd (ground (arith, h))
create_named-Minted is_user c g r now s t (some k) h =
    create_kind-Minted is_user c g (or_pat_kind k) r now s t (or_pat_kind-given k) h

-- A token that the self-service API creates belongs to the caller, has a known kind, holds only
-- scopes that were asked for and that the caller may grant, besides the account's, and expires at
-- most 365 days from now where it expires; it is the one row more in the table.
pub create_token-Minted :
    (is_user : String → Bool) (c : Caller) (g : Option Generated) (r : CreateTokenRequest) (now : ℕ)
    (s : Keeper) (t : Token)
    → (create_token is_user (ok c) g (some r) now s).0 ≡ ok t
    → Minted c r now t
      × ((create_token is_user (ok c) g (some r) now s).1.tokens ≡ s.tokens ++ row_of_token t ∷ [])
unfolding create_token
create_token-Minted is_user c g r now s t h =
    let same : create_token is_user (ok c) g (some r) now s
        ≡ create_named is_user c g r now s r.kind =
      ground arith in
    let (minted, after) =
      create_named-Minted is_user c g r now s t r.kind (ap (λ a. a.0) (sym same) ∙ h) in
    (minted, ap (λ a. a.1.tokens) same ∙ after)
