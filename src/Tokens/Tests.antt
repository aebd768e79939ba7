-- ===== src/Tokens/Tests.antt =====
-- Concrete runs of the bearer tokens, and the theorems applied to them.
use Prim.Native.String as S
use hooks.Prelude.{
  ℕ, ◌≡◌, ◌≢◌, refl, String, List, [], ◌∷◌, false, none, some, err, Has, ◌==◌, nat_eq, string_eq,
  trim_space, String-discrete, ℕ_discrete, split_on, All, not,
}
use hooks.Sources.{HttpHeaders}
use hooks.Store.Tokens.{
  TokenRow, HashLookup, token_from_gen, listener, pat, lookup_by_plaintext, split_scopes,
}
use hooks.Store.Tokens.Lookup.{Matches}
use hooks.Tokens.{Authenticator, authorize_source, parse_scopes, missing_token}
use hooks.Tokens.Access
use hooks.Tokens.Touch

abbrev row : TokenRow
row = record {
  id = "tok";
  name = "phone";
  scopes = "oba,me";
  secret_hash = "h:secret";
  created_at = 5;
  last_used_at = none;
  revoked_at = none;
  owner_user_id = some "u";
  kind = listener;
  ephemeral = false;
  expires_at = some 100;
}

abbrev fresh : Authenticator
fresh = record { tokens = row ∷ []; last_touched_at = []; write_ok = λ id now. not (now == 10) }

abbrev compare_hash : HashLookup
compare_hash plaintext hash = some (S.◌++◌ "h:" plaintext == hash)

abbrev shown : HttpHeaders
shown = ("Authorization", "Bearer secret" ∷ []) ∷ []

parsed : parse_scopes " oba, me,,oba ," ≡ "oba" ∷ "me" ∷ []
unfolding parse_scopes split_on trim_space String-discrete ℕ_discrete
parsed = refl

not_shown : (authorize_source (some compare_hash) 50 51 [] "oba" fresh).0 ≡ err missing_token
unfolding authorize_source String-discrete
not_shown = refl

authorize_source-Grants_example :
    (p : String) × Access.Presents shown p
    × (p ≢ "")
    × Matches compare_hash p fresh.tokens (token_from_gen row)
    × Access.IsLive 50 (token_from_gen row)
    × ((token_from_gen row).kind ≢ pat)
    × Has "oba" (token_from_gen row).scopes
unfolding authorize_source String-discrete ℕ_discrete trim_space token_from_gen lookup_by_plaintext
    split_scopes
authorize_source-Grants_example =
    (Access.authorize_source-Grants compare_hash 50 51 shown "oba" fresh (token_from_gen row)).0
      refl

abbrev uses : List (String × ℕ)
uses = ("tok", 10) ∷ ("tok", 20) ∷ ("tok", 61000000000) ∷ []

touches-Spaced_example :
    let a = Touch.touch_all uses fresh in
    Touch.Spaced a.last_touched_at
    × (a.tokens ≡ Touch.replayed fresh.write_ok a.last_touched_at (row ∷ []))
    × All (Touch.IsCovered a.last_touched_at) uses
touches-Spaced_example = Touch.touches-Spaced fresh.write_ok (row ∷ []) uses
