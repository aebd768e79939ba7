-- ===== src/Devicepair/Tests.antt =====
-- A pairing from its start to its fetch, and the theorems applied to it.
use Prim.Native.String as S
use hooks.Prelude.{
  ℕ, ◌≡◌, ◌≢◌, refl, String, List, [], ◌∷◌, Bool, true, false, none, some, err, length, ltb, Has,
  arith, String-discrete, ℕ_discrete, join, take, drop, if◌then◌else◌, trim_space,
}
use hooks.Store.Users.{User, user}
use hooks.Store.Tokens.{TokenRow, pat}
use hooks.Store.Pairings.{DevicePairing, approved_unfetched, get_by_device_code}
use hooks.Store.Pairings.Lifecycle.{SealedDb}
use hooks.Store.Pairings.Transitions.{Step}
use hooks.Store.Pairings.Statements.{fetching, execute, execute-Step}
use hooks.Devicepair.{Pairer, start, body, Client, started}
use hooks.Devicepair.Codes.{new_user_code}
use hooks.Devicepair.Draws.{accepted, picked, chances, new_user_code_even}
use hooks.Devicepair.Polling.{handed, PollResponse, poll, mark_fetched}
use hooks.Devicepair.Deciding.{Approver, approve, approve_core, exceeds_authority}
use hooks.Devicepair.Approval.{Approved, approve_core-Approved}
use hooks.Devicepair.Once.{response, poll_once}
use hooks.Devicepair.Lifecycle.{PairingCall, starts, approves, call, calls, calls-SealedDb}

abbrev empty : Pairer
empty = record { db = record { pairings = []; tokens = [] }; audit = [] }

abbrev client : Client
client = record { ip = "::1"; user_agent = "hooksctl" }

abbrev ann : User
ann = record {
  id = "ann";
  email = "ann@x";
  name = "Ann";
  role = user;
  password_hash = "h:pw";
  default_scopes = "oba" ∷ [];
  created_at = 1;
  deactivated_at = none;
  external_id = none;
}

abbrev approver : Approver
approver = record {
  is_user = λ _. true;
  verify_password = λ p h. some true;
  generated = some (record { id = "tok"; plaintext = "secret"; hash = "h:secret" });
}

abbrev is_user : String → Bool
is_user _ = true

abbrev same : String → String
same s = s

abbrev waiting : Pairer
waiting = record {
  db = record { pairings = started "dev" "CODE" 10 client ("oba" ∷ []) ∷ []; tokens = [] };
  audit = [];
}

abbrev after_approval : Pairer
after_approval = record {
  db = (approve_core approver ann "CODE" "pw" [] 20 waiting).1.db;
  audit = [];
}

beyond :
    (approve_core approver (record ann { default_scopes = [] }) "CODE" "pw" [] 20 waiting).0
    ≡ err exceeds_authority
unfolding approve_core String-discrete ℕ_discrete
beyond = refl

approve_core-Approved_example :
    Approved approver ann "CODE" "pw" [] 20 waiting.db
      (approve_core approver ann "CODE" "pw" [] 20 waiting).1.db
unfolding approve_core String-discrete ℕ_discrete
approve_core-Approved_example = approve_core-Approved approver ann "CODE" "pw" [] 20 waiting refl

abbrev start_then_approve : List PairingCall
start_then_approve =
    starts (some "dev") (some "CODE") 10 client
      (body (record { scopes = "oba" ∷ []; admin = false }))
    ∷ approves approver (some ann)
        (some (record { user_code = " CODE "; password = "pw"; granted_scopes = [] })) 20
    ∷ []

calls-SealedDb_example : SealedDb (calls same is_user start_then_approve empty).db
calls-SealedDb_example = calls-SealedDb same is_user start_then_approve empty tt

abbrev found : DevicePairing
found = record (started "dev" "CODE" 10 client ("oba" ∷ [])) {
  status = approved_unfetched;
  user_id = some "ann";
  plaintext_token = some "secret";
  token_id = some "tok";
}

abbrev sealed_row : TokenRow
sealed_row = record {
  id = "tok";
  name = "device-pairing";
  scopes = "oba";
  secret_hash = "h:secret";
  created_at = 20;
  last_used_at = none;
  revoked_at = none;
  owner_user_id = some "ann";
  kind = pat;
  ephemeral = false;
  expires_at = none;
}

abbrev unfetched : Pairer
unfetched = record { db = record { pairings = found ∷ []; tokens = sealed_row ∷ [] }; audit = [] }

reached : (calls same is_user start_then_approve empty).db ≡ unfetched.db
unfolding call start approve trim_space String-discrete ℕ_discrete join
reached = refl

poll_once_example :
    (plaintext : String) × (r : TokenRow) × (found.plaintext_token ≡ some plaintext)
    × Has r unfetched.db.tokens
    × (found.token_id ≡ some r.id)
    × (poll (some "dev") 30 unfetched ≡ (handed (response found plaintext r), some "dev"))
    × ((a : PollResponse) → (poll (some "dev") 40 (mark_fetched "dev" unfetched)).0 ≢ handed a)
unfolding String-discrete ℕ_discrete get_by_device_code
poll_once_example =
    poll_once "dev" 30 40 unfetched found
      (((λ _. ("secret", "tok", refl, refl, refl)), λ n. absurd (n refl)), tt) refl refl

execute-Step_example :
    Step unfetched.db.pairings (execute is_user (fetching "dev") unfetched.db).pairings
execute-Step_example = execute-Step is_user (fetching "dev") unfetched.db tt

abbrev draws : List ℕ
draws = 0 ∷ 255 ∷ 1 ∷ 2 ∷ 30 ∷ 31 ∷ 250 ∷ 5 ∷ 6 ∷ 247 ∷ []

drawn : new_user_code draws ≡ some "234Z-278Z"
unfolding new_user_code ℕ_discrete
drawn = refl

new_user_code_even_example :
    (new_user_code draws ≡ (
      if ltb (length (accepted draws)) 8
      then none
      else some (
          picked
            (take 4 (accepted draws))
            (S.◌++◌ "-" (picked (take 4 (drop 4 (accepted draws))) "")))))
    × (chances 30 ≡ 8)
new_user_code_even_example = new_user_code_even draws 30 (omega arith)
