-- ===== src/Tokens/Touch.antt =====
-- `maybeTouch` of internal/tokens/middleware.go over a sequence of uses.
use hooks.Prelude.{
  ℕ, ◌+◌, ◌≤◌, ◌<◌, Has, ◌≡◌, refl, sym, ap, ◌∙◌, String, List, [], ◌∷◌, true, false, arith, ◌==◌,
  string_eq, inl, inr, All, All-imp, Bool-cases, eq_of_beq, Bool, if◌then◌else◌,
}
use hooks.Store.Tokens.{TokenTable, touch_last_used}
use hooks.Tokens.{Authenticator, due, maybe_touch, touch_interval}

-- The uses of tokens one after the other, each with its time.
abbrev pub touch_all : List (String × ℕ) → Authenticator → Authenticator
touch_all [] a = a
touch_all ((id, now) ∷ uses) a = touch_all uses (maybe_touch id now a)

-- The writes, the newest first, put into the table, but for those that fail.
abbrev pub replayed : (String → ℕ → Bool) → List (String × ℕ) → TokenTable → TokenTable
replayed write_ok [] rows = rows
replayed write_ok ((id, now) ∷ writes) rows =
    let before = replayed write_ok writes rows in
    if write_ok id now then touch_last_used id now before else before

-- Each write is a minute or more after the earlier writes for the same token.
abbrev pub Spaced : List (String × ℕ) → Type 0
Spaced [] = Unit {0}
Spaced ((id, now) ∷ writes) =
    All (λ (e : String × ℕ). e.0 ≡ id → e.1 + touch_interval ≤ now) writes × Spaced writes

due-Spaced :
    (id : String) (now : ℕ) (writes : List (String × ℕ))
    → due id now writes ≡ true
    → Spaced writes
    → All (λ (e : String × ℕ). e.0 ≡ id → e.1 + touch_interval ≤ now) writes
due-Spaced id now [] h s = tt
due-Spaced id now ((k, t) ∷ writes) h s = elim (Bool-cases (k == id)) [
  | inl e ↦
      let same = eq_of_beq k id e in
      let later : t + touch_interval ≤ now = ground arith in
      ((λ _. later), All-imp writes (λ x f q. omega (arith, later, f (q ∙ sym same))) s.0)
  | inr e ↦ ((λ q. ground arith), due-Spaced id now writes (ground arith) s.1)
]

abbrev From : TokenTable → Authenticator → Type 0
From rows a = Spaced a.last_touched_at × (a.tokens ≡ replayed a.write_ok a.last_touched_at rows)

maybe_touch-From :
    (rows : TokenTable) (id : String) (now : ℕ) (a : Authenticator)
    → From rows a
    → From rows (maybe_touch id now a)
unfolding maybe_touch
maybe_touch-From rows id now a (s, r) = elim (Bool-cases (due id now a.last_touched_at)) [
  | inl e ↦ rw e (
    (due-Spaced id now a.last_touched_at e s, s),
    ap (λ t. if a.write_ok id now then touch_last_used id now t else t) r,
  )
  | inr e ↦ rw e (s, r)
]

touch_all-From :
    (rows : TokenTable) (uses : List (String × ℕ)) (a : Authenticator)
    → From rows a
    → From rows (touch_all uses a)
touch_all-From rows [] a h = h
touch_all-From rows ((id, now) ∷ uses) a h =
    touch_all-From rows uses (maybe_touch id now a) (maybe_touch-From rows id now a h)

-- A write for the token no more than a minute before the use, or at it.
abbrev pub IsCovered : List (String × ℕ) → String × ℕ → Type 0
IsCovered writes u = (t : ℕ) × Has (u.0, t) writes × (u.1 < t + touch_interval)

due-IsCovered :
    (id : String) (now : ℕ) (writes : List (String × ℕ))
    → due id now writes ≡ false
    → IsCovered writes (id, now)
due-IsCovered id now [] h = ground arith
due-IsCovered id now ((k, t) ∷ writes) h = elim (Bool-cases (k == id)) [
  | inl e ↦ (t, inl (ap (λ x. (x, t)) (eq_of_beq k id e)), ground arith)
  | inr e ↦ let (t', m, q) = due-IsCovered id now writes (ground arith) in (t', inr m, q)
]

maybe_touch-kept :
    (id : String) (now : ℕ) (a : Authenticator) (e : String × ℕ)
    → Has e a.last_touched_at
    → Has e (maybe_touch id now a).last_touched_at
unfolding maybe_touch
maybe_touch-kept id now a e m = elim (Bool-cases (due id now a.last_touched_at)) [
  | inl d ↦ rw d (inr m)
  | inr d ↦ rw d m
]

maybe_touch-IsCovered :
    (id : String) (now : ℕ) (a : Authenticator)
    → IsCovered (maybe_touch id now a).last_touched_at (id, now)
unfolding maybe_touch
maybe_touch-IsCovered id now a = elim (Bool-cases (due id now a.last_touched_at)) [
  | inl d ↦ rw d (now, inl refl, omega arith)
  | inr d ↦ rw d (due-IsCovered id now a.last_touched_at d)
]

touch_all-kept :
    (uses : List (String × ℕ)) (a : Authenticator) (e : String × ℕ)
    → Has e a.last_touched_at
    → Has e (touch_all uses a).last_touched_at
touch_all-kept [] a e m = m
touch_all-kept ((id, now) ∷ uses) a e m =
    touch_all-kept uses (maybe_touch id now a) e (maybe_touch-kept id now a e m)

touch_all-IsCovered :
    (uses : List (String × ℕ)) (a : Authenticator)
    → All (IsCovered (touch_all uses a).last_touched_at) uses
touch_all-IsCovered [] a = tt
touch_all-IsCovered ((id, now) ∷ uses) a =
    let (t, m, q) = maybe_touch-IsCovered id now a in
    (
      (t, touch_all-kept uses (maybe_touch id now a) (id, t) m, q),
      touch_all-IsCovered uses (maybe_touch id now a),
    )

touch_all-write_ok :
    (uses : List (String × ℕ)) (a : Authenticator) → (touch_all uses a).write_ok ≡ a.write_ok
unfolding maybe_touch
touch_all-write_ok [] a = refl
touch_all-write_ok ((id, now) ∷ uses) a =
    let same : (maybe_touch id now a).write_ok ≡ a.write_ok =
      elim (Bool-cases (due id now a.last_touched_at)) [ inl d ↦ rw d refl | inr d ↦ rw d refl ] in
    touch_all-write_ok uses (maybe_touch id now a) ∙ same

-- Over any sequence of uses by a new authenticator, the writes of a use that it tries for one token
-- are a minute or more apart, the table has just those of them that succeed, and each use comes
-- before a minute after one of those tried is over.
pub touches-Spaced :
    (write_ok : String → ℕ → Bool) (rows : TokenTable) (uses : List (String × ℕ))
    → let a =
        touch_all uses (record { tokens = rows; last_touched_at = []; write_ok = write_ok }) in
      Spaced a.last_touched_at
      × (a.tokens ≡ replayed write_ok a.last_touched_at rows)
      × All (IsCovered a.last_touched_at) uses
touches-Spaced write_ok rows uses =
    let a : Authenticator = record { tokens = rows; last_touched_at = []; write_ok = write_ok } in
    let (s, r) = touch_all-From rows uses a (tt, refl) in
    (
      s,
      r ∙ ap (λ f. replayed f (touch_all uses a).last_touched_at rows) (touch_all-write_ok uses a),
      touch_all-IsCovered uses a,
    )
