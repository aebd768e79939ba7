-- ===== src/Users/Policy.antt =====
-- internal/users/policy.go: which passwords the policy takes.
use Prim.Native.Char.{Char}
use Prim.Native.String as S
use text.Mathlib.TextLemmas.{nil-append, cons-append}
use hooks.Prelude.{
  ℕ, ◌≤◌, ◌≡◌, ◌≢◌, ◌↔◌, refl, sym, ap, ◌∙◌, inl, inr, String, true, false, Option, none, some,
  arith, Bool-cases, cut_prefix, cut_prefix-some, cut_prefix-append, ok, leb, ◌==◌, string_eq,
  ne_of_beq, ◌&&◌, trim_space,
}
use hooks.Users.{rune_count, starts_with, contains, before_at, contains_local, validate_password}

-- A text stands within another.
abbrev pub Within : String → String → Type 0
Within sub s = (before after : String) × (s ≡ S.◌++◌ before (S.◌++◌ sub after))

starts_with-Within :
    (p s : String) → starts_with p s ≡ true → (after : String) × (s ≡ S.◌++◌ p after)
starts_with-Within p s h = go (cut_prefix p s) refl
  where
    go : (o : Option String) → cut_prefix p s ≡ o → (after : String) × (s ≡ S.◌++◌ p after)
    go none e = absurd (ground (arith, e, h))
    go (some after) e = (after, cut_prefix-some p s after e)

starts_with-append : (p after : String) → starts_with p (S.◌++◌ p after) ≡ true
starts_with-append p after = rw (cut_prefix-append p after, starts_with) refl

contains-Within : (s sub : String) → contains s sub ≡ true → Within sub s
unfolding contains
contains-Within S.[] sub h =
    let (after, e) = starts_with-Within sub "" h in
    ("", after, e ∙ sym (nil-append (S.◌++◌ sub after)))
contains-Within (S.◌∷◌ c s) sub h = elim (Bool-cases (starts_with sub (S.◌∷◌ c s))) [
  | inl q ↦
      let (after, e) = starts_with-Within sub (S.◌∷◌ c s) q in
      ("", after, e ∙ sym (nil-append (S.◌++◌ sub after)))
  | inr q ↦
      let (before, after, e) = contains-Within s sub (ground (arith, q, h)) in
      (S.◌∷◌ c before, after, ap (S.◌∷◌ c) e ∙ sym (cons-append c before (S.◌++◌ sub after)))
]

-- What starts a text stands in it.
starts-contains : (s sub : String) → starts_with sub s ≡ true → contains s sub ≡ true
unfolding contains
starts-contains S.[] sub h = h
starts-contains (S.◌∷◌ c s) sub h = ground (arith, h)

contains-later :
    (c : Char) (s sub : String) → contains s sub ≡ true → contains (S.◌∷◌ c s) sub ≡ true
unfolding contains
contains-later c s sub h = ground (arith, h)

Within-contains :
    (sub before after : String) → contains (S.◌++◌ before (S.◌++◌ sub after)) sub ≡ true
Within-contains sub S.[] after =
    rw (nil-append (S.◌++◌ sub after))
      (starts-contains (S.◌++◌ sub after) sub (starts_with-append sub after))
Within-contains sub (S.◌∷◌ c before) after =
    rw (cons-append c before (S.◌++◌ sub after))
      (contains-later c (S.◌++◌ before (S.◌++◌ sub after)) sub (Within-contains sub before after))

contains_iff : (s sub : String) → (contains s sub ≡ true) ↔ Within sub s
contains_iff s sub = (
  contains-Within s sub,
  λ h. let (before, after, e) = h in rw e (Within-contains sub before after),
)

empty_before : (at : ℕ) (local : String) → before_at "" ≢ some (at, local)
unfolding before_at
empty_before at local q = ground (arith, q)

-- The policy takes a password exactly when it has twelve characters or more and, both in lower case,
-- contains neither the email nor its part before the `@` where that has three bytes or more.
pub validate_password_iff :
    (to_lower : String → String) (email pw : String)
    → (validate_password to_lower email pw ≡ ok tt) ↔ (
        (12 ≤ rune_count pw)
        × (to_lower (trim_space email) ≢ ""
            → Within (to_lower (trim_space email)) (to_lower pw)
            → ⊥)
        × ((at : ℕ) (local : String)
            → before_at (to_lower (trim_space email)) ≡ some (at, local)
            → 3 ≤ at
            → Within local (to_lower pw)
            → ⊥))
unfolding validate_password
validate_password_iff to_lower email pw = (taken, take)
  where
    lower : String
    lower = to_lower pw

    name : String
    name = to_lower (trim_space email)

    Local : Type 0
    Local =
        (at : ℕ) (local : String)
        → before_at name ≡ some (at, local)
        → 3 ≤ at
        → Within local lower
        → ⊥

    empty_name : name ≡ "" → (at : ℕ) (local : String) → before_at name ≢ some (at, local)
    empty_name e at local q = empty_before at local (sym (ap before_at e) ∙ q)

    taken :
        validate_password to_lower email pw ≡ ok tt
        → (12 ≤ rune_count pw) × (name ≢ "" → Within name lower → ⊥) × Local
    taken h = (
      ground (arith, h),
      (λ n w. ground (arith, h, n, (contains_iff lower name).1 w)),
      λ at local q l w. elim (Bool-cases (name == "")) [
        | inl e ↦ absurd (empty_name (ground (arith, e)) at local q)
        | inr e ↦ ground (arith, h, e, q, l, (contains_iff lower local).1 w)
      ],
    )

    no_local :
        (o : Option (ℕ × String)) → before_at name ≡ o → Local → contains_local lower o ≡ false
    no_local none q g = refl
    no_local (some (at, local)) q g = elim (Bool-cases (leb 3 at && contains lower local)) [
      | inl e ↦
          absurd
            (g at local q (ground (arith, e)) ((contains_iff lower local).0 (ground (arith, e))))
      | inr e ↦ e
    ]

    take :
        (12 ≤ rune_count pw) × (name ≢ "" → Within name lower → ⊥) × Local
        → validate_password to_lower email pw ≡ ok tt
    take (l, f, g) = elim (Bool-cases (name == "")) [
      | inl e ↦ ground (arith, l, e)
      | inr e ↦ elim (Bool-cases (contains lower name)) [
        | inl c ↦ absurd (f (ne_of_beq name "" e) ((contains_iff lower name).0 c))
        | inr c ↦ ground (arith, l, e, c, no_local (before_at name) refl g)
      ]
    ]
