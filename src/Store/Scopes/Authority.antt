-- ===== src/Store/Scopes/Authority.antt =====
-- internal/store/scopes.go: what the scopes held by a user let the user grant.
use hooks.Prelude.{
  ◌≡◌, ◌⊎◌, refl, sym, inl, inr, String, List, [], ◌∷◌, ◌++◌, true, arith, string_eq,
  String-discrete, ne_of_beq, Has, Bool-cases,
}
use hooks.Store.Users.{User, Role, admin, user}
use hooks.Store.Scopes.{Scopes, scope_all, scope_account, subset_of, held_by_user, with_scope, has}
use hooks.Store.Scopes.Sets.{subset_of_iff}

-- The caller may grant the scopes: an admin any, another user their own and the account's.
abbrev pub MayGrant : User → Scopes → Type 0
MayGrant u granted =
    (u.role ≡ admin)
    ⊎ (Has scope_all u.default_scopes
        ⊎ ((name : String) → Has name granted → Has name u.default_scopes ⊎ (name ≡ scope_account)))

Has-last : {A : Type 0} (x y : A) (xs : List A) → Has x (xs ++ y ∷ []) → Has x xs ⊎ (x ≡ y)
Has-last x y [] (inl e) = inr (sym e)
Has-last x y [] (inr m) = elim m [ ]
Has-last x y (z ∷ xs) (inl e) = inl (inl e)
Has-last x y (z ∷ xs) (inr m) = elim (Has-last x y xs m) [ inl k ↦ inl (inr k) | inr e ↦ inr e ]

pub Has-with_scope :
    (x name : String) (s : Scopes) → Has x (with_scope s name) → Has x s ⊎ (x ≡ name)
unfolding with_scope
Has-with_scope x name s m = elim (Bool-cases (has s name)) [
  | inl e ↦ inl (rw e at m)
  | inr e ↦ Has-last x name s (rw e at m)
]

pub held_by_user-MayGrant :
    (u : User) (granted : Scopes) → subset_of granted (held_by_user u) ≡ true → MayGrant u granted
unfolding held_by_user String-discrete
held_by_user-MayGrant u granted h = go u.role refl
  where
    go : (r : Role) → u.role ≡ r → MayGrant u granted
    go admin e = inl e
    go user e =
        let q : subset_of granted (with_scope u.default_scopes scope_account) ≡ true =
          ground (arith, h, e) in
        elim ((subset_of_iff granted (with_scope u.default_scopes scope_account)).0 q) [
          | inl w ↦ elim (Has-with_scope scope_all scope_account u.default_scopes w) [
            | inl k ↦ inr (inl k)
            | inr n ↦ absurd (ne_of_beq scope_all scope_account refl n)
          ]
          | inr i ↦
              inr (inr (λ name m. Has-with_scope name scope_account u.default_scopes (i name m)))
        ]
