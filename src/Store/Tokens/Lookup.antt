-- ===== src/Store/Tokens/Lookup.antt =====
-- `LookupByPlaintext` of internal/store/sqlite.go.
use hooks.Prelude.{
  ◌≡◌, ◌≢◌, refl, inl, inr, String, [], ◌∷◌, true, none, some, arith, keep, Has, Has-keep_iff,
  Bool-cases,
}
use hooks.Store.Tokens.{
  TokenRow, Token, TokenTable, HashLookup, hash_matches, is_unrevoked, token_from_gen, first_match,
  lookup_by_plaintext,
}

-- The token is that of a row which is not revoked and whose hash matches.
abbrev pub Matches : HashLookup → String → TokenTable → Token → Type 0
Matches compare plaintext rows t =
    (r : TokenRow) × Has r rows
    × ((r.revoked_at ≡ none)
        × (compare plaintext r.secret_hash ≡ some true)
        × (token_from_gen r ≡ t))

match_some :
    (compare : HashLookup) (plaintext : String) (rows : TokenTable) (t : Token)
    → first_match compare plaintext rows ≡ some t
    → (r : TokenRow) × Has r rows
      × (compare plaintext r.secret_hash ≡ some true)
      × (token_from_gen r ≡ t)
unfolding first_match
match_some compare plaintext [] t h = absurd (ground arith)
match_some compare plaintext (r ∷ rows) t h = elim (Bool-cases (hash_matches compare plaintext r)) [
  | inl m ↦ (r, inl refl, ground arith, ground arith)
  | inr m ↦
      let (r', k, q, e) = match_some compare plaintext rows t (ground arith) in (r', inr k, q, e)
]

match_none :
    (compare : HashLookup) (plaintext : String) (rows : TokenTable) (r : TokenRow)
    → Has r rows
    → compare plaintext r.secret_hash ≡ some true
    → first_match compare plaintext rows ≢ none
unfolding first_match
match_none compare plaintext [] r h q = absurd h
match_none compare plaintext (x ∷ rows) r (inl h) q = λ e. ground arith
match_none compare plaintext (x ∷ rows) r (inr h) q =
    λ e. ground (arith, match_none compare plaintext rows r h q)

-- A lookup returns only the token of a row that is not revoked and whose hash matches, and it
-- finds one whenever there is such a row: rows whose hash cannot be read do not hide it.
pub lookup_by_plaintext-Matches :
    (compare : HashLookup) (plaintext : String) (rows : TokenTable)
    → ((t : Token)
        → lookup_by_plaintext (some compare) plaintext rows ≡ some t
        → Matches compare plaintext rows t)
      × ((r : TokenRow)
          → Has r rows
          → r.revoked_at ≡ none
          → compare plaintext r.secret_hash ≡ some true
          → lookup_by_plaintext (some compare) plaintext rows ≢ none)
unfolding lookup_by_plaintext
lookup_by_plaintext-Matches compare plaintext rows = (
  λ t h.
      let (r, k, q, e) = match_some compare plaintext (keep is_unrevoked rows) t h in
      let (k', u) = (Has-keep_iff is_unrevoked rows).0 k in (r, k', (ground arith, q, e)),
  λ r k u q.
      match_none compare plaintext (keep is_unrevoked rows) r
        ((Has-keep_iff is_unrevoked rows).1 (k, ground arith)) q,
)
