-- ===== src/Invites/Tests.antt =====
-- A signup, and the theorems applied to it.
use hooks.Prelude.{
  ◌+◌, ◌≤◌, ◌≡◌, refl, String, List, [], ◌∷◌, false, none, some, length, String-discrete,
  ℕ_discrete, trim_space,
}
use hooks.Store.Users.{User, user}
use hooks.Store.Invites.{Invite, signup_tx}
use hooks.Store.Invites.Once.{Signup, redeemed, admitted, signups_db, signups_once}
use hooks.Users.{validate_password}
use hooks.Invites.{Inviter, Registrar, SignupRequest, provision, signup}
use hooks.Invites.Signups.{Provisioned, provision-Provisioned}

abbrev same : String → String
same s = s

abbrev registrar : Registrar
registrar = record {
  fold = same;
  to_lower = same;
  to_upper = same;
  hash_password = λ p. some p;
  new_id = "ann";
}

abbrev invite : Invite
invite = record {
  code = "CODE";
  role = user;
  default_scopes = "oba" ∷ [];
  created_by_user_id = none;
  bootstrap = false;
  created_at = 1;
  expires_at = some 100;
  consumed_at = none;
  consumed_by_user_id = none;
}

abbrev before : Inviter
before = record { db = record { invites = invite ∷ []; users = [] }; audit = [] }

abbrev request : SignupRequest
request = record { code = "CODE"; email = "ann@x.org"; name = "Ann"; password = "correct horse" }

abbrev ann : User
ann = record {
  id = "ann";
  email = "ann@x.org";
  name = "Ann";
  role = user;
  password_hash = "correct horse";
  default_scopes = "oba" ∷ [];
  created_at = 50;
  deactivated_at = none;
  external_id = none;
}

signed : (signup registrar (some request) 50 before).0 ≡ 201
unfolding signup validate_password signup_tx trim_space String-discrete ℕ_discrete
signed = refl

provision-Provisioned_example :
    Provisioned registrar request 50 before.db ann (provision registrar request 50 before).1.db
unfolding provision validate_password signup_tx trim_space String-discrete ℕ_discrete
provision-Provisioned_example = provision-Provisioned registrar request 50 before ann refl

abbrev twice : List Signup
twice = ("CODE", ann, 50) ∷ ("CODE", record ann { id = "bob"; email = "bob@x.org" }, 51) ∷ []

first_redeems : redeemed same "CODE" twice before.db ≡ 1
unfolding signup_tx String-discrete ℕ_discrete
first_redeems = refl

signups_once_example :
    (redeemed same "CODE" twice before.db ≤ 1)
    × (length (signups_db same twice before.db).users
        ≡ admitted same twice before.db + length before.db.users)
signups_once_example = signups_once same "CODE" twice before.db
