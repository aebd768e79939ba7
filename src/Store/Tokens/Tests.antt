-- ===== src/Store/Tokens/Tests.antt =====
-- The table of tokens with one revoked and one active row.
use hooks.Prelude.{
  ℕ, ◌≡◌, ◌≢◌, refl, String, List, [], ◌∷◌, Bool, true, false, Option, none, some, Has,
  String-discrete, ℕ_discrete, ◌==◌, string_eq,
}
use hooks.Store.Tokens.{
  pat, TokenRow, Token, TokenTable, HashLookup, get_token, lookup_by_plaintext, split_scopes,
}
use hooks.Store.Tokens.Revocation.{
  RevokedAt, TokenChange, touches, revokes, expires, token_changes, changes-RevokedAt,
}
use hooks.Store.Tokens.Lookup.{Matches, lookup_by_plaintext-Matches}

abbrev token_row : String → Option ℕ → TokenRow
token_row id revoked_at = record {
  id = id;
  name = "n";
  scopes = "a, b,";
  secret_hash = "h";
  created_at = 5;
  last_used_at = none;
  revoked_at = revoked_at;
  owner_user_id = none;
  kind = pat;
  ephemeral = true;
  expires_at = none;
}

abbrev token_rows : TokenTable
token_rows = token_row "old" (some 7) ∷ token_row "new" none ∷ []

old_revoked : RevokedAt "old" 7 token_rows
unfolding get_token String-discrete
old_revoked = (token_row "old" (some 7), refl, refl)

abbrev later_calls : List TokenChange
later_calls = revokes "old" 20 ∷ expires 30 10 ∷ touches "old" 40 ∷ []

abbrev no_user : String → Bool
no_user u = false

changes-RevokedAt_example : RevokedAt "old" 7 (token_changes no_user later_calls token_rows)
changes-RevokedAt_example = changes-RevokedAt no_user later_calls "old" 7 token_rows old_revoked

abbrev same_text : HashLookup
same_text plaintext hash = some (plaintext == hash)

lookup_by_plaintext-Matches_example :
    ((t : Token)
      → lookup_by_plaintext (some same_text) "h" token_rows ≡ some t
      → Matches same_text "h" token_rows t)
    × ((r : TokenRow)
        → Has r token_rows
        → r.revoked_at ≡ none
        → same_text "h" r.secret_hash ≡ some true
        → lookup_by_plaintext (some same_text) "h" token_rows ≢ none)
lookup_by_plaintext-Matches_example = lookup_by_plaintext-Matches same_text "h" token_rows

split_two : split_scopes "a, b," ≡ "a" ∷ "b" ∷ []
unfolding split_scopes String-discrete ℕ_discrete
split_two = refl
