-- ===== src/Prelude/Lists.antt =====
-- Lists measured by native numbers, and predicates that hold of all members.
use Prim.Native.Nat.{ℕ, zero, suc, ◌+◌, ◌≤◌}
use mathlib.Core.Bool.{Bool, true, false, ◌&&◌}
use mathlib.Core.List.{List, [], ◌∷◌, ◌++◌}
use mathlib.Core.Logic.{◌⊎◌, ◌↔◌, inl, inr}
use mathlib.Core.Option.{Option, none, some}
use mathlib.Core.Path.{◌≡◌, refl, ap}
use native.Mathlib.Omega.{arith}
use hooks.Prelude.Tests.{if◌then◌else◌, Bool-cases}

module _ {ℓ} {A : Type ℓ} where
  abbrev pub length : List A → ℕ
  length [] = 0
  length (x ∷ xs) = suc (length xs)

  abbrev pub take : ℕ → List A → List A
  take zero xs = []
  take (suc n) [] = []
  take (suc n) (x ∷ xs) = x ∷ take n xs

  abbrev pub drop : ℕ → List A → List A
  drop zero xs = xs
  drop (suc n) [] = []
  drop (suc n) (x ∷ xs) = drop n xs

  pub length-append : (xs ys : List A) → length (xs ++ ys) ≡ length xs + length ys
  length-append [] ys = omega arith
  length-append (x ∷ xs) ys = omega (arith, length-append xs ys)

  pub take-append-drop : (n : ℕ) (xs : List A) → take n xs ++ drop n xs ≡ xs
  take-append-drop zero xs = refl
  take-append-drop (suc n) [] = refl
  take-append-drop (suc n) (x ∷ xs) = ap (◌∷◌ x) (take-append-drop n xs)

  pub take-nil : (n : ℕ) → take n [] ≡ []
  take-nil zero = refl
  take-nil (suc n) = refl

  -- The members that pass a test.
  abbrev pub keep : (A → Bool) → List A → List A
  keep p [] = []
  keep p (x ∷ xs) = let rest = keep p xs in if p x then x ∷ rest else rest

  abbrev pub any : (A → Bool) → List A → Bool
  any p [] = false
  any p (x ∷ xs) = let rest = any p xs in if p x then true else rest

  abbrev pub all : (A → Bool) → List A → Bool
  all p [] = true
  all p (x ∷ xs) = let rest = all p xs in if p x then rest else false

  abbrev pub find? : (A → Bool) → List A → Option A
  find? p [] = none
  find? p (x ∷ xs) = let rest = find? p xs in if p x then some x else rest

module _ {ℓ κ} {A : Type ℓ} where
  abbrev pub All : (A → Type κ) → List A → Type κ
  All P [] = Unit
  All P (x ∷ xs) = P x × All P xs

  pub All-append : (P : A → Type κ) (xs ys : List A) → All P xs → All P ys → All P (xs ++ ys)
  All-append P [] ys hx hy = hy
  All-append P (x ∷ xs) ys hx hy = (hx.0, All-append P xs ys hx.1 hy)

  pub All-imp : {P Q : A → Type κ} (xs : List A) → ((x : A) → P x → Q x) → All P xs → All Q xs
  All-imp [] f h = tt
  All-imp (x ∷ xs) f h = (f x h.0, All-imp xs f h.1)

  pub All-keep : (P : A → Type κ) (p : A → Bool) (xs : List A) → All P xs → All P (keep p xs)
  All-keep P p [] h = tt
  All-keep P p (x ∷ xs) h = ground (arith, All-keep P p xs h.1)

module _ {ℓ} {A : Type ℓ} where
  pub keep-append : (p : A → Bool) (xs ys : List A) → keep p (xs ++ ys) ≡ keep p xs ++ keep p ys
  keep-append p [] ys = refl
  keep-append p (x ∷ xs) ys = ground (arith, keep-append p xs ys)

  pub keep-keep : (p q : A → Bool) (xs : List A) → keep p (keep q xs) ≡ keep (λ x. q x && p x) xs
  keep-keep p q [] = refl
  keep-keep p q (x ∷ xs) = ground (arith, keep-keep p q xs)

  pub length-keep-le : (p : A → Bool) (xs : List A) → length (keep p xs) ≤ length xs
  length-keep-le p [] = omega arith
  length-keep-le p (x ∷ xs) = ground (arith, length-keep-le p xs)

-- Membership by recursion (in a small type: `⊥` has no other level): the tactics take it apart.
module _ {A : Type 0} where
  abbrev pub Has : A → List A → Type 0
  Has x [] = ⊥
  Has x (y ∷ ys) = (y ≡ x) ⊎ Has x ys

  pub any-Has : (p : A → Bool) (xs : List A) → any p xs ≡ true → (x : A) × Has x xs × (p x ≡ true)
  any-Has p [] h = cc
  any-Has p (x ∷ xs) h = elim (Bool-cases (p x)) [
    | inl e ↦ (x, inl refl, e)
    | inr e ↦ let (y, m, q) = any-Has p xs (ground arith) in (y, inr m, q)
  ]

  pub Has-any : (p : A → Bool) {x : A} (xs : List A) → Has x xs → p x ≡ true → any p xs ≡ true
  Has-any p [] m q = absurd m
  Has-any p (y ∷ xs) (inl e) q = ground arith
  Has-any p (y ∷ xs) (inr m) q = ground (arith, Has-any p xs m q)

  pub Has-keep_iff :
      (p : A → Bool) {x : A} (xs : List A) → Has x (keep p xs) ↔ (Has x xs × (p x ≡ true))
  Has-keep_iff p xs = (into p xs, out p xs)
    where
      into : (p : A → Bool) {x : A} (xs : List A) → Has x (keep p xs) → Has x xs × (p x ≡ true)
      into p [] m = absurd m
      into p (y ∷ xs) m = elim (Bool-cases (p y)) [
        | inl e ↦ elim (rw e at m) [
          | inl h ↦ (inl h, ground arith)
          | inr k ↦ (inr (into p xs k).0, (into p xs k).1)
        ]
        | inr e ↦ (inr (into p xs (rw e at m)).0, (into p xs (rw e at m)).1)
      ]

      out : (p : A → Bool) {x : A} (xs : List A) → Has x xs × (p x ≡ true) → Has x (keep p xs)
      out p [] (m, q) = absurd m
      out p (y ∷ xs) (inl e, q) = let h : p y ≡ true = ground arith in rw h (inl e)
      out p (y ∷ xs) (inr m, q) = elim (Bool-cases (p y)) [
        | inl e ↦ rw e (inr (out p xs (m, q)))
        | inr e ↦ rw e (out p xs (m, q))
      ]

  pub all-Has : (p : A → Bool) {x : A} (xs : List A) → all p xs ≡ true → Has x xs → p x ≡ true
  all-Has p [] h m = absurd m
  all-Has p (y ∷ xs) h (inl e) = ground arith
  all-Has p (y ∷ xs) h (inr m) = all-Has p xs (ground arith) m

  pub Has-all : (p : A → Bool) (xs : List A) → ((x : A) → Has x xs → p x ≡ true) → all p xs ≡ true
  Has-all p [] h = refl
  Has-all p (x ∷ xs) h = ground (arith, h x (inl refl), Has-all p xs (λ y m. h y (inr m)))
