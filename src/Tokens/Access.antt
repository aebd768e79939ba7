-- ===== src/Tokens/Access.antt =====
-- internal/tokens/middleware.go: which requests are let in.
use Prim.Native.String as S
use hooks.Prelude.{
  ℕ, ◌≤◌, ◌≡◌, ◌≢◌, refl, subst, ap, inl, inr, String, false, Option, none, some, arith, ◌==◌,
  nat_eq, ne_of_beq, eq_of_beq, beq_ne, string_eq, trim_space, Result, ok, err, Has, Bool-cases,
  cut_prefix, cut_prefix-some, cut_prefix-append, ◌∙◌, ◌>>=◌,
}
use hooks.Sources.{HttpHeaders, header_get}
use hooks.Store.Tokens.{Token, HashLookup, TokenTable, pat, lookup_by_plaintext}
use hooks.Store.Tokens.Lookup.{Matches, lookup_by_plaintext-Matches}
use hooks.Store.Scopes.{has_scope}
use hooks.Store.Scopes.Sets.{member_iff}
use hooks.Tokens.{
  AuthError, Authenticator, is_expired, is_revoked, check_source, admit, extract_bearer,
  resolve_plaintext, resolve_found, resolve_given, resolve, authorize_source,
}

-- The Authorization header presents the plaintext.
abbrev pub Presents : HttpHeaders → String → Type 0
Presents headers p =
    (rest : String) × (header_get "Authorization" headers ≡ S.◌++◌ "Bearer " rest)
    × (trim_space rest ≡ p)

extract_bearer-Presents :
    (headers : HttpHeaders) (p : String) → extract_bearer headers ≡ ok p → Presents headers p
unfolding extract_bearer
extract_bearer-Presents headers p h =
    go (cut_prefix "Bearer " (header_get "Authorization" headers)) refl
  where
    go :
        (o : Option String)
        → cut_prefix "Bearer " (header_get "Authorization" headers) ≡ o
        → Presents headers p
    go none q = ground arith
    go (some rest) q = (
      rest,
      cut_prefix-some "Bearer " (header_get "Authorization" headers) rest q,
      ground (arith, q),
    )

-- The token lives: it is not revoked and its time is not over.
abbrev pub IsLive : ℕ → Token → Type 0
IsLive now t = (t.revoked_at ≡ none) × ((e : ℕ) → t.expires_at ≡ some e → now ≤ e)

admit-IsLive :
    (now later : ℕ) (t u : Token) (a : Authenticator)
    → (admit now later t a).0 ≡ ok u
    → (t ≡ u) × IsLive now u
unfolding admit
admit-IsLive now later t u a h =
    let e : t ≡ u = ground arith in (e, subst (IsLive now) e (ground arith, λ x q. ground arith))

resolve_plaintext-Found :
    (compare : HashLookup) (now later : ℕ) (p : String) (a : Authenticator) (t : Token)
    → (resolve_plaintext (some compare) now later p a).0 ≡ ok t
    → (p ≢ "") × (lookup_by_plaintext (some compare) p a.tokens ≡ some t) × IsLive now t
unfolding resolve_plaintext
resolve_plaintext-Found compare now later p a t h = elim (Bool-cases (p == "")) [
  | inl e ↦ absurd (ground arith)
  | inr e ↦
      let (q, live) = found (lookup_by_plaintext (some compare) p a.tokens) refl (rw e at h) in
      (ne_of_beq p "" e, q, live)
]
  where
    found :
        (o : Option Token)
        → lookup_by_plaintext (some compare) p a.tokens ≡ o
        → (resolve_found now later o a).0 ≡ ok t
        → (lookup_by_plaintext (some compare) p a.tokens ≡ some t) × IsLive now t
    found none q k = absurd (ground arith)
    found (some u) q k =
        let (same, live) = admit-IsLive now later u t a k in (q ∙ ap some same, live)

resolve-Found :
    (compare : HashLookup) (now later : ℕ) (headers : HttpHeaders) (a : Authenticator) (t : Token)
    → (resolve (some compare) now later headers a).0 ≡ ok t
    → (p : String) × Presents headers p
      × (p ≢ "")
      × (lookup_by_plaintext (some compare) p a.tokens ≡ some t)
      × IsLive now t
unfolding resolve
resolve-Found compare now later headers a t h = given (extract_bearer headers) refl h
  where
    given :
        (r : Result AuthError String)
        → extract_bearer headers ≡ r
        → (resolve_given (some compare) now later r a).0 ≡ ok t
        → (p : String) × Presents headers p
          × (p ≢ "")
          × (lookup_by_plaintext (some compare) p a.tokens ≡ some t)
          × IsLive now t
    given (err x) e k = absurd (ground arith)
    given (ok p) e k =
        let (n, l, live) = resolve_plaintext-Found compare now later p a t k in
        (p, extract_bearer-Presents headers p e, n, l, live)

Presents-extract_bearer :
    (headers : HttpHeaders) (p : String) → Presents headers p → extract_bearer headers ≡ ok p
unfolding extract_bearer
Presents-extract_bearer headers p (rest, h, q) =
    elim (Bool-cases (header_get "Authorization" headers == "")) [
      | inl e ↦ absurd (
          cc (
            cut (eq_of_beq (header_get "Authorization" headers) "" e),
            cut h,
            cut_prefix-append "Bearer " rest,
          ))
      | inr e ↦ rw (e) (ground (arith, cut h, q, cut_prefix-append "Bearer " rest))
    ]
  where
    cut :
        {s : String}
        → header_get "Authorization" headers ≡ s
        → cut_prefix "Bearer " (header_get "Authorization" headers) ≡ cut_prefix "Bearer " s
    cut e = ap (cut_prefix "Bearer ") e

lookup_only :
    (compare : HashLookup) (p : String) (rows : TokenTable) (t : Token)
    → Matches compare p rows t
    → ((u : Token) → Matches compare p rows u → u ≡ t)
    → lookup_by_plaintext (some compare) p rows ≡ some t
lookup_only compare p rows t (r, m, (u, q, e)) only =
    go (lookup_by_plaintext (some compare) p rows) refl
  where
    go :
        (o : Option Token)
        → lookup_by_plaintext (some compare) p rows ≡ o
        → lookup_by_plaintext (some compare) p rows ≡ some t
    go none k = absurd ((lookup_by_plaintext-Matches compare p rows).1 r m u q k)
    go (some v) k = k ∙ ap some (only v ((lookup_by_plaintext-Matches compare p rows).0 v k))

admit_live :
    (now later : ℕ) (t : Token) (a : Authenticator) → IsLive now t → (admit now later t a).0 ≡ ok t
unfolding admit
admit_live now later t a (u, e) =
    let not_revoked : is_revoked t ≡ false = ground arith in
    let not_expired = in_time t.expires_at refl in rw (not_revoked, not_expired) refl
  where
    in_time : (o : Option ℕ) → t.expires_at ≡ o → is_expired now t ≡ false
    in_time none q = ground arith
    in_time (some x) q = ground (arith, e x q)

resolve-IsLive :
    (compare : HashLookup) (now later : ℕ) (headers : HttpHeaders) (a : Authenticator) (t : Token)
    (p : String)
    → Presents headers p
    → p ≢ ""
    → lookup_by_plaintext (some compare) p a.tokens ≡ some t
    → IsLive now t
    → (resolve (some compare) now later headers a).0 ≡ ok t
unfolding resolve resolve_given resolve_plaintext resolve_found
resolve-IsLive compare now later headers a t p h n q live =
    let b : (p == "") ≡ false = beq_ne p "" n in
    rw (Presents-extract_bearer headers p h) (rw (b, q) (admit_live now later t a live))

check_source-only :
    (source : String) (t u : Token)
    → check_source source t ≡ ok u
    → (t ≡ u) × (u.kind ≢ pat) × Has source u.scopes
unfolding has_scope
check_source-only source t u h =
    let e : t ≡ u = ground arith in
    (
      e,
      subst (λ x. x.kind ≢ pat) e (λ k. ground arith),
      subst (λ x. Has source x.scopes) e ((member_iff source t.scopes).0 (ground arith)),
    )

check_source-lets_in :
    (source : String) (t : Token)
    → t.kind ≢ pat
    → Has source t.scopes
    → check_source source t ≡ ok t
unfolding has_scope
check_source-lets_in source t k h = ground (arith, (member_iff source t.scopes).1 h)

-- `AuthorizeSource` lets in only the token of a row that the header's plaintext matches, not
-- revoked and within its time, that is not a personal token and names the source itself among its
-- scopes; and such a token is let in whenever the plaintext matches no other.
pub authorize_source-Grants :
    (compare : HashLookup) (now later : ℕ) (headers : HttpHeaders) (source : String)
    (a : Authenticator) (t : Token)
    → ((authorize_source (some compare) now later headers source a).0 ≡ ok t
        → (p : String) × Presents headers p
          × (p ≢ "")
          × Matches compare p a.tokens t
          × IsLive now t
          × (t.kind ≢ pat)
          × Has source t.scopes)
      × ((p : String)
          → Presents headers p
          → p ≢ ""
          → Matches compare p a.tokens t
          → ((u : Token) → Matches compare p a.tokens u → u ≡ t)
          → IsLive now t
          → t.kind ≢ pat
          → Has source t.scopes
          → (authorize_source (some compare) now later headers source a).0 ≡ ok t)
unfolding authorize_source
authorize_source-Grants compare now later headers source a t = (
  granted ((resolve (some compare) now later headers a).0) refl,
  λ p h n m only live k s.
      let r =
        resolve-IsLive compare now later headers a t p h n (lookup_only compare p a.tokens t m only)
          live in
      rw r (check_source-lets_in source t k s),
)
  where
    granted :
        (r : Result AuthError Token)
        → (resolve (some compare) now later headers a).0 ≡ r
        → r >>= check_source source ≡ ok t
        → (p : String) × Presents headers p
          × (p ≢ "")
          × Matches compare p a.tokens t
          × IsLive now t
          × (t.kind ≢ pat)
          × Has source t.scopes
    granted (err x) e h = absurd (ground arith)
    granted (ok u) e h =
        let (same, k, s) = check_source-only source u t h in
        let (p, shown, n, l, live) = resolve-Found compare now later headers a t (e ∙ ap ok same) in
        (p, shown, n, (lookup_by_plaintext-Matches compare p a.tokens).0 t l, live, k, s)
