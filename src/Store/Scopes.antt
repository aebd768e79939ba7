-- ===== src/Store/Scopes.antt =====
-- internal/store/scopes.go and `HasScope` of types.go: scopes are texts; a map from texts to `true`
-- is the list of its keys, each once.
pub mod Sets
pub mod Text
pub mod Authority
mod Tests
use hooks.Prelude.{
  ℕ, String, List, [], ◌∷◌, ◌++◌, Bool, true, false, not, ◌&&◌, ◌||◌, ◌==◌, if◌then◌else◌, any, all,
  length, string_eq, nat_eq,
}
use hooks.Store.Users.{User, is_admin}

abbrev pub Scopes : Type 0
Scopes = List String

abbrev pub scope_all : String
scope_all = "*"

abbrev pub scope_account : String
scope_account = "account"

abbrev pub scope_admin : String
scope_admin = "admin"

abbrev pub member : String → Scopes → Bool
member name = any λ x. x == name

-- `HasScope`
unfoldable pub has_scope : Scopes → String → Bool
has_scope scopes name = member name scopes

-- `Scopes.Has`
unfoldable pub has : Scopes → String → Bool
has s name = if name == "" then false else any (λ x. x == scope_all || x == name) s

-- `Scopes.With`
unfoldable pub with_scope : Scopes → String → Scopes
unfolding has
with_scope s name = if has s name then s else s ++ name ∷ []

-- `Scopes.uniq`
unfoldable pub uniq : Scopes → Scopes
uniq [] = []
uniq (x ∷ xs) = let rest = uniq xs in if member x xs then rest else x ∷ rest

-- `Scopes.Equal`
unfoldable pub equal : Scopes → Scopes → Bool
unfolding uniq
equal s other = length (uniq s) == length (uniq other) && all (λ k. member k (uniq other)) (uniq s)

-- `Scopes.SubsetOf`
unfoldable pub subset_of : Scopes → Scopes → Bool
unfolding uniq
subset_of s have = if member scope_all have then true else all (λ n. member n (uniq have)) s

-- `HeldByUser`
unfoldable pub held_by_user : User → Scopes
unfolding with_scope
held_by_user u =
    if is_admin u.role then scope_all ∷ [] else with_scope u.default_scopes scope_account
