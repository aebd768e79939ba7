-- ===== src/Store/Users/Tests.antt =====
-- An admin deactivates another.
use hooks.Prelude.{String, [], ◌∷◌, none, ne_of_beq, refl, String-discrete, string_eq}
use hooks.Store.Users.{User, admin, Accounts, deactivate_user_cascade}
use hooks.Store.Users.Cascade.{AreUsers, Effect, deactivate_user_cascade-Effect}

abbrev admin_named : String → User
admin_named id = record {
  id = id;
  email = "e";
  name = "n";
  role = admin;
  password_hash = "h";
  default_scopes = [];
  created_at = 5;
  deactivated_at = none;
  external_id = none;
}

abbrev accounts : Accounts
accounts = record {
  users = admin_named "a" ∷ admin_named "b" ∷ [];
  tokens = [];
  subscriptions = [];
}

accounts-AreUsers : AreUsers accounts.users
unfolding String-discrete
accounts-AreUsers = ((ne_of_beq "b" "a" refl, tt), (tt, tt))

deactivate_user_cascade-Effect_example :
    Effect "a" accounts (deactivate_user_cascade "a" 9 accounts)
deactivate_user_cascade-Effect_example =
    deactivate_user_cascade-Effect "a" 9 accounts accounts-AreUsers
