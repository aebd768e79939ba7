-- ===== src/Store/Invites/Once.antt =====
-- internal/store/invites_store.go: an invite is redeemed at most once.
use hooks.Prelude.{
  ℕ, ◌+◌, ◌≤◌, ◌≡◌, refl, sym, subst, inl, inr, String, List, [], ◌∷◌, Bool, true, false, not, ◌&&◌,
  arith, ◌==◌, if◌then◌else◌, Result, ok, err, any, All, Bool-cases, string_eq, after_if, length,
  length-append, eq_of_beq,
}
use hooks.Store.Rows.{set_where, All-set_where}
use hooks.Store.Users.{User, user_is}
use hooks.Store.Invites.{
  Invite, InviteTable, InviteDb, InviteError, redeems, open_bootstrap, consumed, signup_tx,
  mark_bootstrap_invites_consumed, email_taken,
}

-- No row with the code can be redeemed any more.
abbrev pub IsSpent : String → Invite → Type 0
IsSpent code i = redeems code i ≡ false

-- The signups one after the other: the code, the user and the time of each.
abbrev pub Signup : Type 0
Signup = String × User × ℕ

abbrev pub succeeded : Result InviteError Unit → Bool
succeeded (ok _) = true
succeeded (err _) = false

-- How many of the signups with a code succeed.
abbrev pub redeemed : (String → String) → String → List Signup → InviteDb → ℕ
redeemed fold code [] db = 0
redeemed fold code ((c, u, now) ∷ signups) db =
    let (r, after) = signup_tx fold c u now db in
    (if c == code && succeeded r then 1 else 0) + redeemed fold code signups after

any-IsSpent :
    (code : String) (rows : InviteTable) → All (IsSpent code) rows → any (redeems code) rows ≡ false
any-IsSpent code [] h = refl
any-IsSpent code (i ∷ rows) (h, hs) = ground (arith, h, any-IsSpent code rows hs)

consumed-IsSpent :
    (code : String) (p : Invite → Bool) (by : String) (now : ℕ) (rows : InviteTable)
    → All (IsSpent code) rows
    → All (IsSpent code) (set_where p (consumed by now) rows)
consumed-IsSpent code p by now rows h =
    All-set_where (IsSpent code) p (consumed by now) rows (λ i e k. ground arith) h

redeemed-IsSpent :
    (code : String) (by : String) (now : ℕ) (rows : InviteTable)
    → All (IsSpent code) (set_where (redeems code) (consumed by now) rows)
redeemed-IsSpent code by now [] = tt
redeemed-IsSpent code by now (i ∷ rows) = elim (Bool-cases (redeems code i)) [
  | inl e ↦ rw e (ground arith, redeemed-IsSpent code by now rows)
  | inr e ↦ rw e (e, redeemed-IsSpent code by now rows)
]

signup_tx-IsSpent :
    (fold : String → String) (code c : String) (u : User) (now : ℕ) (db : InviteDb)
    → All (IsSpent code) db.invites
    → All (IsSpent code) (signup_tx fold c u now db).1.invites
unfolding signup_tx mark_bootstrap_invites_consumed
signup_tx-IsSpent fold code c u now db h =
    let P : InviteDb → Type 0 = λ d. All (IsSpent code) d.invites in
    after_if P (any (user_is u.id) db.users) _ _ (λ _. h)
      (λ _.
        after_if P (email_taken fold u.email db.users) _ _ (λ _. h)
          (λ _.
            after_if P (not (any (redeems c) db.invites)) _ _ (λ _. h)
              (λ _.
                consumed-IsSpent code open_bootstrap u.id now
                  (set_where (redeems c) (consumed u.id now) db.invites)
                  (consumed-IsSpent code (redeems c) u.id now db.invites h))))

-- A signup that succeeds leaves its code spent.
signup_tx-spends :
    (fold : String → String) (code : String) (u : User) (now : ℕ) (db : InviteDb)
    → succeeded (signup_tx fold code u now db).0 ≡ true
    → All (IsSpent code) (signup_tx fold code u now db).1.invites
unfolding signup_tx mark_bootstrap_invites_consumed
signup_tx-spends fold code u now db h =
    let P : InviteDb → Type 0 = λ d. All (IsSpent code) d.invites in
    after_if P (any (user_is u.id) db.users) _ _ (λ e. absurd (ground (arith, e)))
      (λ _.
        after_if P (email_taken fold u.email db.users) _ _ (λ e. absurd (ground (arith, e)))
          (λ _.
            after_if P (not (any (redeems code) db.invites)) _ _ (λ e. absurd (ground (arith, e)))
              (λ _.
                consumed-IsSpent code open_bootstrap u.id now
                  (set_where (redeems code) (consumed u.id now) db.invites)
                  (redeemed-IsSpent code u.id now db.invites))))

signup_tx-spent :
    (fold : String → String) (code : String) (u : User) (now : ℕ) (db : InviteDb)
    → All (IsSpent code) db.invites
    → succeeded (signup_tx fold code u now db).0 ≡ false
unfolding signup_tx
signup_tx-spent fold code u now db h = ground (arith, any-IsSpent code db.invites h)

-- How many of the signups succeed, and the tables after all of them.
abbrev pub admitted : (String → String) → List Signup → InviteDb → ℕ
admitted fold [] db = 0
admitted fold ((c, u, now) ∷ signups) db =
    let (r, after) = signup_tx fold c u now db in
    (if succeeded r then 1 else 0) + admitted fold signups after

abbrev pub signups_db : (String → String) → List Signup → InviteDb → InviteDb
signups_db fold [] db = db
signups_db fold ((c, u, now) ∷ signups) db = signups_db fold signups (signup_tx fold c u now db).1

redeemed-IsSpent_none :
    (fold : String → String) (code : String) (signups : List Signup) (db : InviteDb)
    → All (IsSpent code) db.invites
    → redeemed fold code signups db ≡ 0
redeemed-IsSpent_none fold code [] db h = refl
redeemed-IsSpent_none fold code ((c, u, now) ∷ signups) db h =
    let rest =
      redeemed-IsSpent_none fold code signups (signup_tx fold c u now db).1
        (signup_tx-IsSpent fold code c u now db h) in
    elim (Bool-cases (c == code)) [
      | inl e ↦
          let fails =
            signup_tx-spent fold c u now db
              (subst (λ x. All (IsSpent x) db.invites) (sym (eq_of_beq c code e)) h) in
          rw (e, fails, rest) refl
      | inr e ↦ rw (e, rest) refl
    ]

redeemed_once :
    (fold : String → String) (code : String) (signups : List Signup) (db : InviteDb)
    → redeemed fold code signups db ≤ 1
redeemed_once fold code [] db = omega arith
redeemed_once fold code ((c, u, now) ∷ signups) db =
    let ih = redeemed_once fold code signups (signup_tx fold c u now db).1 in
    elim (Bool-cases (c == code)) [
      | inl e ↦ elim (Bool-cases (succeeded (signup_tx fold c u now db).0)) [
        | inl s ↦
            let spent =
              subst (λ x. All (IsSpent x) (signup_tx fold c u now db).1.invites)
                (eq_of_beq c code e) (signup_tx-spends fold c u now db s) in
            let none_left =
              redeemed-IsSpent_none fold code signups (signup_tx fold c u now db).1 spent in
            rw (e, s, none_left) (omega arith)
        | inr s ↦ rw (e, s) (omega (arith, ih))
      ]
      | inr e ↦ rw e (omega (arith, ih))
    ]

signup_tx-users :
    (fold : String → String) (code : String) (u : User) (now : ℕ) (db : InviteDb)
    → length (signup_tx fold code u now db).1.users
      ≡ (if succeeded (signup_tx fold code u now db).0 then 1 else 0) + length db.users
unfolding signup_tx
signup_tx-users fold code u now db = ground (arith, length-append db.users (u ∷ []))

signups_db-users :
    (fold : String → String) (signups : List Signup) (db : InviteDb)
    → length (signups_db fold signups db).users ≡ admitted fold signups db + length db.users
signups_db-users fold [] db = omega arith
signups_db-users fold ((c, u, now) ∷ signups) db = omega (
  arith,
  signups_db-users fold signups (signup_tx fold c u now db).1,
  signup_tx-users fold c u now db,
)

-- However signups are ordered, at most one with a given code succeeds, and each that succeeds adds
-- exactly one user while a signup that fails adds none.
pub signups_once :
    (fold : String → String) (code : String) (signups : List Signup) (db : InviteDb)
    → (redeemed fold code signups db ≤ 1)
      × (length (signups_db fold signups db).users ≡ admitted fold signups db + length db.users)
signups_once fold code signups db =
    (redeemed_once fold code signups db, signups_db-users fold signups db)
