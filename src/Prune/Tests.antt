-- ===== src/Prune/Tests.antt =====
-- A pass over two events and one token.
use hooks.Prelude.{
  ℕ, ◌-◌, ◌≡◌, ◌↔◌, refl, String, pos, List, [], ◌∷◌, Bool, true, false, none, some, All, Has,
  nat_eq, ◌*◌, ◌^◌,
}
use hooks.Store.Events.{Event}
use hooks.Store.Tokens.{TokenRow, TokenTable, listener, get_token}
use hooks.Store.Tokens.Revocation.{swept}
use hooks.Prune.{Keeps, run_once, run_once_exact, prune_older_than}

abbrev received : ℕ → Event
received time = record {
  source = "a";
  sequence = time;
  delivery_id = "x";
  provider_timestamp = pos 7;
  received_at = time;
  headers = [];
  body = [];
  body_sha256 = "00";
}

abbrev events : List Event
events = received 5 ∷ received 50 ∷ []

abbrev forward_token : TokenRow
forward_token = record {
  id = "t";
  name = "n";
  scopes = "a";
  secret_hash = "h";
  created_at = 5;
  last_used_at = none;
  revoked_at = none;
  owner_user_id = none;
  kind = listener;
  ephemeral = true;
  expires_at = none;
}

abbrev tokens : TokenTable
tokens = forward_token ∷ []

abbrev clock : String → ℕ
clock source = 100

abbrev never : String → Bool
never source = false

abbrev retentions : List (String × ℕ)
retentions = ("a", 60) ∷ ("b", 0) ∷ []

run_once_exact_example :
    ((e : Event)
      → Has e (run_once clock never 200 retentions events (some tokens)).0
        ↔ (Has e events × All (Keeps clock never e) retentions))
    × (left : TokenTable) × ((run_once clock never 200 retentions events (some tokens)).1
        ≡ some left)
    × ((id : String)
        → get_token id left ≡ swept 200 (200 - 24 * 3600 * 10 ^ 9) (get_token id tokens))
run_once_exact_example = run_once_exact clock never 200 retentions events tokens

older_than_first : prune_older_than 60 100 events ≡ (received 50 ∷ [], 1)
unfolding prune_older_than
older_than_first = refl
