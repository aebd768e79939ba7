-- ===== src/Store/Rows.antt =====
-- What the wrappers of internal/store/sqlite.go share over the generated queries: UPDATE and
-- DELETE on a table that is the list of its rows, with the count of the rows they met.
use hooks.Prelude.{
  ℕ, ◌≡◌, refl, ◌↔◌, List, [], ◌∷◌, map, Bool, false, not, arith, ◌==◌, if◌then◌else◌, Result, ok,
  err, keep, any, length, nat_eq, All, Bool-cases, inl, inr, true,
}

pub data StoreError : Type 0 where
  not_found constraint_failed : StoreError

module _ {A : Type 0} where
  -- UPDATE … SET … WHERE
  abbrev pub set_where : (A → Bool) → (A → A) → List A → List A
  set_where p f = map λ x. if p x then f x else x

  -- `if n == 0 { return ErrNotFound }`
  abbrev pub or_not_found : ℕ → List A → Result StoreError Unit × List A
  or_not_found n rows = if n == 0 then (err not_found, rows) else (ok tt, rows)

  -- An update by key: what the wrapper returns, and the rows afterwards.
  abbrev pub update_where : (A → Bool) → (A → A) → List A → Result StoreError Unit × List A
  update_where p f rows = or_not_found (length (keep p rows)) (set_where p f rows)

  abbrev pub delete_where : (A → Bool) → List A → Result StoreError Unit × List A
  delete_where p rows = or_not_found (length (keep p rows)) (keep (λ x. not (p x)) rows)

  pub update_where-rows :
      (p : A → Bool) (f : A → A) (rows : List A) → (update_where p f rows).1 ≡ set_where p f rows
  update_where-rows p f rows = ground arith

  pub delete_where-rows :
      (p : A → Bool) (rows : List A) → (delete_where p rows).1 ≡ keep (λ x. not (p x)) rows
  delete_where-rows p rows = ground arith

  pub length-keep-any :
      (p : A → Bool) (rows : List A) → (length (keep p rows) ≡ 0) ↔ (any p rows ≡ false)
  length-keep-any p [] = ((λ h. refl), λ h. refl)
  length-keep-any p (x ∷ rows) =
      ((λ h. ground (arith, length-keep-any p rows)), λ h. ground (arith, length-keep-any p rows))

  -- The wrapper reports a missing row exactly when no row is met.
  pub update_where-not_found :
      (p : A → Bool) (f : A → A) (rows : List A)
      → ((update_where p f rows).0 ≡ err not_found) ↔ (any p rows ≡ false)
  update_where-not_found p f rows = (
    (λ h. (length-keep-any p rows).0 (ground arith)),
    λ h. ground (arith, (length-keep-any p rows).1 h),
  )

  pub All-set_where :
      (P : A → Type 0) (p : A → Bool) (f : A → A) (rows : List A)
      → ((x : A) → p x ≡ true → P x → P (f x))
      → All P rows
      → All P (set_where p f rows)
  All-set_where P p f [] step h = tt
  All-set_where P p f (x ∷ rows) step h = elim (Bool-cases (p x)) [
    | inl e ↦ rw e (step x e h.0, All-set_where P p f rows step h.1)
    | inr e ↦ rw e (h.0, All-set_where P p f rows step h.1)
  ]
