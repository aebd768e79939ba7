-- ===== src/Store/Push/Tests.antt =====
-- The table of push subscriptions with one row.
use hooks.Prelude.{◌≡◌, ◌↔◌, refl, String, [], ◌∷◌, Bool, true, false, none, some, Has}
use hooks.Store.Push.{
  PushSubscription, Table, get_push, list_push, list_push_by_source, list_push_by_owner,
  list_system_push,
}
use hooks.Store.Push.Keys.{fails, change}
use hooks.Store.Push.Lookups.{row_of, get_push-change}
use hooks.Store.Push.Listings.{IsOrdered, list_push_exact}

abbrev subscription : String → PushSubscription
subscription id = record {
  id = id;
  source = "a";
  target_url = "https://example.org";
  signing_secret_hash = "00";
  name = "n";
  cursor = 0;
  paused_at = none;
  created_at = 5;
  last_attempt_at = none;
  last_success_at = none;
  last_error = "";
  consecutive_failures = 0;
  owner_user_id = some "u";
}

abbrev one_row : Table
one_row = subscription "p" ∷ []

abbrev knows_all : String → Bool
knows_all u = true

get_push-change_example :
    get_push "p" (change knows_all (fails "p" 9 "refused") one_row)
    ≡ row_of knows_all (fails "p" 9 "refused") "p" one_row
get_push-change_example = get_push-change knows_all (fails "p" 9 "refused") "p" one_row

list_push_exact_example :
    ((x : PushSubscription)
      → (Has x (list_push_by_source "a" false one_row)
          ↔ (Has x one_row × (x.source ≡ "a") × (false ≡ false → x.paused_at ≡ none)))
        × (Has x (list_push_by_owner "a" false one_row)
            ↔ (Has x one_row × (x.owner_user_id ≡ some "a") × (false ≡ false → x.paused_at ≡ none)))
        × (Has x (list_system_push false one_row)
            ↔ (Has x one_row × (x.owner_user_id ≡ none) × (false ≡ false → x.paused_at ≡ none))))
    × IsOrdered (list_push_by_source "a" false one_row)
    × IsOrdered (list_push_by_owner "a" false one_row)
    × IsOrdered (list_system_push false one_row)
list_push_exact_example = list_push_exact one_row "a" false

list_push_one : list_push true one_row ≡ one_row
unfolding list_push
list_push_one = refl
