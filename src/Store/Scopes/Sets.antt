-- ===== src/Store/Scopes/Sets.antt =====
-- internal/store/scopes.go: the operations on scopes against sets of names.
use hooks.Prelude.{
  suc, ◌≤◌, ◌≡◌, refl, sym, ◌∙◌, subst, ◌↔◌, ◌⊎◌, inl, inr, String, [], ◌∷◌, true, arith, ◌==◌, Has,
  any-Has, Has-any, length, string_eq, nat_eq, Bool-cases, all-Has, Has-all,
}
use hooks.Store.Scopes.{Scopes, scope_all, member, uniq, equal, subset_of}

pub member_iff : (name : String) (s : Scopes) → (member name s ≡ true) ↔ Has name s
member_iff name s = (
  (λ h.
      let (x, m, q) = any-Has (λ x. x == name) s h in
      let e : x ≡ name = ground arith in subst (λ y. Has y s) e m),
  λ h. Has-any (λ x. x == name) s h (ground arith),
)

-- The names differ.
abbrev Distinct : Scopes → Type 0
Distinct [] = Unit {0}
Distinct (x ∷ xs) = (Has x xs → ⊥) × Distinct xs

abbrev Includes : Scopes → Scopes → Type 0
Includes s t = (x : String) → Has x s → Has x t

-- A list without one occurrence of a member.
removed :
    (x : String) (ys : Scopes)
    → Has x ys
    → (zs : Scopes) × (length ys ≡ suc (length zs))
      × ((y : String) → Has y ys → (y ≡ x) ⊎ Has y zs)
      × Includes zs ys
removed x [] h = absurd h
removed x (y ∷ ys) (inl e) =
    (ys, refl, (λ z h. elim h [ inl q ↦ inl (sym q ∙ e) | inr k ↦ inr k ]), λ z h. inr h)
removed x (y ∷ ys) (inr h) =
    let (zs, n, split, back) = removed x ys h in
    (
      y ∷ zs,
      omega (arith, n),
      (λ z k. elim k [
        | inl q ↦ inr (inl q)
        | inr j ↦ elim (split z j) [ inl e ↦ inl e | inr i ↦ inr (inr i) ]
      ]),
      λ z k. elim k [ inl q ↦ inl q | inr j ↦ inr (back z j) ],
    )

-- What remains is still included once a member is taken out of both.
tail_included :
    (x : String) (xs zs : Scopes)
    → (Has x xs → ⊥)
    → ((y : String) → Has y (x ∷ xs) → (y ≡ x) ⊎ Has y zs)
    → Includes xs zs
tail_included x xs zs d split y h = elim (split y (inr h)) [
  | inl e ↦ absurd (d (subst (λ z. Has z xs) e h))
  | inr k ↦ k
]

length-Includes : (xs ys : Scopes) → Distinct xs → Includes xs ys → length xs ≤ length ys
length-Includes [] ys d i = omega arith
length-Includes (x ∷ xs) ys d i =
    let (zs, n, split, _) = removed x ys (i x (inl refl)) in
    omega (arith, n, length-Includes xs zs d.1 (tail_included x xs zs d.0 (λ y h. split y (i y h))))

-- Distinct names included in as many names are all of them.
Includes-back :
    (xs ys : Scopes) → Distinct xs → Includes xs ys → length xs ≡ length ys → Includes ys xs
Includes-back [] [] d i e y h = h
Includes-back [] (y ∷ ys) d i e z h = absurd (omega (arith, e))
Includes-back (x ∷ xs) ys d i e y h =
    let (zs, n, split, _) = removed x ys (i x (inl refl)) in
    elim (split y h) [
      | inl q ↦ inl (sym q)
      | inr k ↦ inr (
          Includes-back xs zs d.1 (tail_included x xs zs d.0 (λ y h. split y (i y h)))
            (omega (arith, n, e)) y k)
    ]

Has-uniq : (name : String) (s : Scopes) → Has name (uniq s) ↔ Has name s
unfolding uniq
Has-uniq name [] = ((λ h. h), λ h. h)
Has-uniq name (x ∷ s) = elim (Bool-cases (member x s)) [
  | inl m ↦ rw m (
    (λ h. inr ((Has-uniq name s).0 h)),
    λ h. elim h [
      | inl e ↦ (Has-uniq name s).1 (subst (λ y. Has y s) e ((member_iff x s).0 m))
      | inr k ↦ (Has-uniq name s).1 k
    ],
  )
  | inr m ↦ rw m (
    (λ h. elim h [ inl e ↦ inl e | inr k ↦ inr ((Has-uniq name s).0 k) ]),
    λ h. elim h [ inl e ↦ inl e | inr k ↦ inr ((Has-uniq name s).1 k) ],
  )
]

uniq-Distinct : (s : Scopes) → Distinct (uniq s)
unfolding uniq
uniq-Distinct [] = tt
uniq-Distinct (x ∷ s) = elim (Bool-cases (member x s)) [
  | inl m ↦ rw m (uniq-Distinct s)
  | inr m ↦ rw m ((λ h. cc (m, (member_iff x s).1 ((Has-uniq x s).0 h))), uniq-Distinct s)
]

-- `Equal` holds exactly of scopes with the same names, whatever their order and repetitions.
pub equal_iff : (s t : Scopes) → (equal s t ≡ true) ↔ ((name : String) → Has name s ↔ Has name t)
unfolding equal
equal_iff s t = (
  same,
  λ h. ground (
    arith,
    sizes h,
    Has-all (λ k. member k (uniq t)) (uniq s)
        (λ x m. (member_iff x (uniq t)).1 ((Has-uniq x t).1 ((h x).0 ((Has-uniq x s).0 m)))),
  ),
)
  where
    same : equal s t ≡ true → (name : String) → Has name s ↔ Has name t
    same h name =
        let into : Includes (uniq s) (uniq t) = λ x m.
          (member_iff x (uniq t)).0 (all-Has (λ k. member k (uniq t)) (uniq s) (ground arith) m) in
        let back = Includes-back (uniq s) (uniq t) (uniq-Distinct s) into (ground arith) in
        (
          (λ k. (Has-uniq name t).0 (into name ((Has-uniq name s).1 k))),
          λ k. (Has-uniq name s).0 (back name ((Has-uniq name t).1 k)),
        )

    sizes : ((name : String) → Has name s ↔ Has name t) → length (uniq s) ≡ length (uniq t)
    sizes h = omega (
      arith,
      length-Includes (uniq s) (uniq t) (uniq-Distinct s)
          (λ x m. (Has-uniq x t).1 ((h x).0 ((Has-uniq x s).0 m))),
      length-Includes (uniq t) (uniq s) (uniq-Distinct t)
          (λ x m. (Has-uniq x s).1 ((h x).1 ((Has-uniq x t).0 m))),
    )

-- Every name asked for is held, or the wildcard is.
pub subset_of_iff :
    (s have : Scopes)
    → (subset_of s have ≡ true)
      ↔ (Has scope_all have ⊎ ((name : String) → Has name s → Has name have))
unfolding subset_of
subset_of_iff s have = elim (Bool-cases (member scope_all have)) [
  | inl m ↦ ((λ h. inl ((member_iff scope_all have).0 m)), λ h. ground arith)
  | inr m ↦ (
    (λ h. inr (λ name k. (Has-uniq name have).0 (
        (member_iff name (uniq have)).0 (all-Has (λ n. member n (uniq have)) s (ground arith) k)))),
    λ h. elim h [
      | inl w ↦ absurd (cc (m, (member_iff scope_all have).1 w))
      | inr i ↦ ground (
        arith,
        Has-all (λ n. member n (uniq have)) s
            (λ name k. (member_iff name (uniq have)).1 ((Has-uniq name have).1 (i name k))),
      )
    ],
  )
]
