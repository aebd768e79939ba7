-- ===== src/Me/Tests.antt =====
-- A user creates a token and revokes it, and the theorem applied to the creation.
use hooks.Prelude.{
  ◌≡◌, refl, String, [], ◌∷◌, ◌++◌, Bool, true, false, Option, none, some, ok, err, String-discrete,
  ℕ_discrete, pos,
}
use hooks.Store.Users.{User, user}
use hooks.Store.Tokens.{Token, pat, listener, row_of_token, insert_token, unset, get_token}
use hooks.Me.{
  Caller, CreateTokenRequest, Generated, Keeper, create_token, list_own_tokens, revoke_own_token,
}
use hooks.Me.Minting.{Minted, create_token-Minted}

abbrev ann : User
ann = record {
  id = "ann";
  email = "ann@x.org";
  name = "Ann";
  role = user;
  password_hash = "h";
  default_scopes = "oba" ∷ [];
  created_at = 1;
  deactivated_at = none;
  external_id = none;
}

abbrev caller : Caller
caller = record { account = ann; bearer = none }

abbrev request : CreateTokenRequest
request = record {
  name = "laptop";
  scopes = "oba" ∷ "" ∷ "oba" ∷ [];
  kind = some unset;
  ephemeral = false;
  expires_in_seconds = pos 4000000000;
}

abbrev fresh : Keeper
fresh = record { tokens = []; audit = [] }

abbrev is_user : String → Bool
is_user _ = true

abbrev laptop : Token
laptop = record {
  id = "tok";
  name = "laptop";
  scopes = "oba" ∷ "account" ∷ [];
  secret_hash = "h";
  created_at = 50;
  last_used_at = none;
  revoked_at = none;
  owner_user_id = some "ann";
  kind = pat;
  ephemeral = false;
  expires_at = some 31536000000000050;
}

abbrev generated : Option Generated
generated = some (record { id = "tok"; hash = "h" })

create_token-Minted_example :
    Minted caller request 50 laptop
    × ((create_token is_user (ok caller) generated (some request) 50 fresh).1.tokens
        ≡ [] ++ row_of_token laptop ∷ [])
unfolding create_token insert_token String-discrete ℕ_discrete
create_token-Minted_example =
    create_token-Minted is_user caller generated request 50 fresh laptop refl

beyond :
    (create_token is_user
      (ok caller)
      generated
      (some (record request { scopes = "admin" ∷ [] }))
      50
      fresh).0
    ≡ err 403
unfolding create_token String-discrete ℕ_discrete
beyond = refl

revoked :
    (revoke_own_token
      (ok caller)
      "tok"
      60
      (record { tokens = row_of_token laptop ∷ []; audit = [] })).0
    ≡ 204
unfolding revoke_own_token get_token String-discrete ℕ_discrete
revoked = refl

listeners : list_own_tokens (ok caller) true (some listener) (row_of_token laptop ∷ []) ≡ ok []
unfolding list_own_tokens get_token String-discrete ℕ_discrete
listeners = refl
