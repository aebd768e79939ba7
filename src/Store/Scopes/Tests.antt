-- ===== src/Store/Scopes/Tests.antt =====
-- Concrete runs of the scopes, and the theorems applied to them.
use hooks.Prelude.{
  ◌≡◌, refl, String, List, [], ◌∷◌, Bool, true, false, none, some, ne_of_beq, ◌==◌, ◌≢◌, All, ℕ,
  nat_eq, string_eq, trim_space, String-discrete, ℕ_discrete,
}
use hooks.Store.Tokens.{Token, insert_token, listener}
use hooks.Store.Scopes.Text

abbrev two : List String
two = "oba" ∷ "me" ∷ []

abbrev phone : Token
phone = record {
  id = "tok";
  name = "phone";
  scopes = two;
  secret_hash = "h";
  created_at = 5;
  last_used_at = none;
  revoked_at = none;
  owner_user_id = some "u";
  kind = listener;
  ephemeral = false;
  expires_at = none;
}

abbrev is_user : String → Bool
is_user _ = true

two-IsPlain : All Text.IsPlain two
unfolding trim_space String-discrete ℕ_discrete
two-IsPlain = (
  (ne_of_beq "oba" "" refl, refl, (other b'o' refl, (other b'b' refl, (other b'a' refl, tt)))),
  ((ne_of_beq "me" "" refl, refl, (other b'm' refl, (other b'e' refl, tt))), tt),
)
  where
    other : (c : ℕ) → (c == b',') ≡ false → c ≢ b','
    other c h = ne_of_beq c b',' h

insert_token-stored_example : Text.stored (insert_token is_user phone []).1 "tok" ≡ some phone
unfolding insert_token
insert_token-stored_example = Text.insert_token-stored is_user phone [] two-IsPlain refl
