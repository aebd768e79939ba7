-- ===== src/Auth/Tests.antt =====
-- A session from its creation to its end, and the theorem applied to it.
use Prim.Native.String as S
use hooks.Prelude.{
  ℕ, ◌+◌, ◌*◌, ◌^◌, ◌≡◌, refl, String, [], ◌∷◌, true, false, none, some, ok, err, String-discrete,
  ℕ_discrete, cut,
}
use hooks.Store.Users.{User, user, get_user_by_id}
use hooks.Store.Sessions.{Session, get_session}
use hooks.Auth.{expired, lookup, create_session, created_session, log_out}
use hooks.Auth.Sessions.{Valid, Moved, lookup_iff}

abbrev hash : String → String
hash s = S.◌++◌ "h:" s

abbrev ann : User
ann = record {
  id = "ann";
  email = "ann@x.org";
  name = "Ann";
  role = user;
  password_hash = "h";
  default_scopes = [];
  created_at = 1;
  deactivated_at = none;
  external_id = none;
}

abbrev day : ℕ
day = 24 * 3600 * 10 ^ 9

abbrev session : Session
session = created_session "s" "h:pw" 1000 day "ann" "agent" "::1"

created :
    (create_session hash (λ _. true) "s" "pw" 1000 day "ann" "agent" "::1" []).0
    ≡ ok ("s.pw", session)
unfolding create_session String-discrete ℕ_discrete
created = refl

too_late : lookup true hash (1001 + day) day (ann ∷ []) "s.pw" (session ∷ []) ≡ (err expired, [])
unfolding lookup cut String-discrete ℕ_discrete
too_late = refl

abbrev moved : Session
moved = record session { last_used_at = day; expires_at = day + day }

logged_out : log_out hash "s.pw" (session ∷ []) ≡ (some "s", [])
unfolding log_out cut String-discrete ℕ_discrete
logged_out = refl

lookup_iff_example :
    (s : Session) × Valid hash day (ann ∷ []) "s.pw" (session ∷ []) s ann
    × Moved true day day
        (session ∷ [])
        s
        moved
        (lookup true hash day day (ann ∷ []) "s.pw" (session ∷ [])).1
unfolding lookup cut get_session get_user_by_id String-discrete ℕ_discrete
lookup_iff_example =
    (lookup_iff true hash day day (ann ∷ []) "s.pw" (session ∷ []) ann).1 moved refl

unwritten :
    lookup false hash day day (ann ∷ []) "s.pw" (session ∷ []) ≡ (ok (ann, session), session ∷ [])
unfolding lookup cut get_session get_user_by_id String-discrete ℕ_discrete
unwritten = refl
