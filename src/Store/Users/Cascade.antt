-- ===== src/Store/Users/Cascade.antt =====
-- `DeactivateUserCascade` of internal/store/users_store.go.
use hooks.Prelude.{
  ℕ, ◌≡◌, refl, subst, ◌≢◌, inl, inr, String, List, [], ◌∷◌, true, false, not, ◌&&◌, none, some,
  arith, ◌==◌, Result, ok, err, any, All, Bool-cases, Option-cases, string_eq, nat_eq,
}
use hooks.Store.Rows.{length-keep-any}
use hooks.Store.Push
use hooks.Store.Push.{PushSubscription, pause_push_by_owner, owned_by}
use hooks.Store.Tokens.{TokenTable, revoke_tokens_by_owner}
use hooks.Store.Users.{
  User, Accounts, CascadeError, user_not_found, already_deactivated, last_admin, user_is,
  is_activated, is_admin, is_active_admin, get_user_by_id, count_active_admins_excluding,
  deactivate_user, cascade, guard_last_admin, deactivate_user_cascade,
}

-- The ids of the users differ.
abbrev pub AreUsers : List User → Type 0
AreUsers [] = Unit {0}
AreUsers (u ∷ users) = All (λ x. x.id ≢ u.id) users × AreUsers users

-- Another active admin survives the deactivation.
survives :
    (id : String) (now : ℕ) (users : List User)
    → any (λ u. is_active_admin u && not (user_is id u)) users ≡ true
    → any is_active_admin (deactivate_user id now users) ≡ true
unfolding deactivate_user
survives id now [] h = cc
survives id now (u ∷ users) h = ground (arith, survives id now users)

absent :
    (id : String) (users : List User)
    → All (λ x. x.id ≢ id) users
    → any is_active_admin users ≡ true
    → any (λ u. is_active_admin u && not (user_is id u)) users ≡ true
absent id [] a h = cc
absent id (u ∷ users) a h = ground (arith, absent id users a.1)

-- If the user is no admin, every active admin is another user.
others :
    (id : String) (users : List User) (u : User)
    → AreUsers users
    → get_user_by_id id users ≡ some u
    → is_admin u.role ≡ false
    → any is_active_admin users ≡ true
    → any (λ x. is_active_admin x && not (user_is id x)) users ≡ true
unfolding get_user_by_id
others id [] u k h r a = cc
others id (x ∷ users) u k h r a = elim (Bool-cases (user_is id x)) [
  | inr n ↦ ground (arith, others id users u k.1)
  | inl n ↦
      let e : x.id ≡ id = ground arith in
      ground (arith, absent id users (subst (λ i. All (λ y. y.id ≢ i) users) e k.0))
]

revoked-All :
    (id : String) (now : ℕ) (tokens : TokenTable)
    → All
        (λ r. r.owner_user_id ≡ some id → r.revoked_at ≢ none)
        (revoke_tokens_by_owner id now tokens).0
unfolding revoke_tokens_by_owner
revoked-All id now [] = tt
revoked-All id now (r ∷ tokens) = ((λ e. ground arith), revoked-All id now tokens)

paused-All :
    (id : String) (now : ℕ) (subs : Push.Table)
    → All (λ s. s.owner_user_id ≡ some id → s.paused_at ≢ none) (pause_push_by_owner id now subs).0
unfolding pause_push_by_owner
paused-All id now [] = tt
paused-All id now (s ∷ subs) = ((λ e. ground arith), paused-All id now subs)

gone :
    (id : String) (now : ℕ) (users : List User)
    → any (λ u. user_is id u && is_activated u) (deactivate_user id now users) ≡ false
unfolding deactivate_user
gone id now [] = refl
gone id now (u ∷ users) = ground (arith, gone id now users)

-- What the answer promises of the tables.
pub record Effect (id : String) (a : Accounts) (r : Result CascadeError (ℕ × ℕ) × Accounts)
    : Type 0 where
  pub admin_left : any is_active_admin a.users ≡ true → any is_active_admin r.1.users ≡ true
  pub unchanged : (e : CascadeError) → r.0 ≡ err e → r.1 ≡ a
  pub deactivated :
      (n : ℕ × ℕ) → r.0 ≡ ok n → any (λ u. user_is id u && is_activated u) r.1.users ≡ false
  pub revoked :
      (n : ℕ × ℕ)
      → r.0 ≡ ok n
      → All (λ t. t.owner_user_id ≡ some id → t.revoked_at ≢ none) r.1.tokens
  pub paused :
      (n : ℕ × ℕ)
      → r.0 ≡ ok n
      → All (λ s. s.owner_user_id ≡ some id → s.paused_at ≢ none) r.1.subscriptions

module _ (id : String) (now : ℕ) (a : Accounts) where
  refused : (e : CascadeError) → Effect id a (err e, a)
  refused e = record {
    admin_left = λ h. h;
    unchanged = λ e' h. refl;
    deactivated = λ n h. absurd (ground arith);
    revoked = λ n h. absurd (ground arith);
    paused = λ n h. absurd (ground arith);
  }

  done :
      (any is_active_admin a.users ≡ true
        → any (λ x. is_active_admin x && not (user_is id x)) a.users ≡ true)
      → Effect id a (cascade id now a)
  unfolding cascade
  done other = record {
    admin_left = λ h. survives id now a.users (other h);
    unchanged = λ e h. absurd (ground arith);
    deactivated = λ n h. gone id now a.users;
    revoked = λ n h. revoked-All id now a.tokens;
    paused = λ n h. paused-All id now a.subscriptions;
  }

  counted :
      count_active_admins_excluding id a.users ≢ 0
      → any (λ x. is_active_admin x && not (user_is id x)) a.users ≡ true
  unfolding count_active_admins_excluding
  counted h = elim (Bool-cases (any (λ x. is_active_admin x && not (user_is id x)) a.users)) [
    | inl e ↦ e
    | inr e ↦
        absurd (h ((length-keep-any (λ x. is_active_admin x && not (user_is id x)) a.users).1 e))
  ]

  guard-Effect :
      (u : User)
      → AreUsers a.users
      → get_user_by_id id a.users ≡ some u
      → Effect id a (guard_last_admin id now a u)
  unfolding guard_last_admin
  guard-Effect u k h = elim (Bool-cases (is_activated u)) [
    | inr i ↦ rw (i, guard_last_admin) (refused already_deactivated)
    | inl i ↦ elim (Bool-cases (is_admin u.role)) [
      | inr r ↦ rw (i, r, guard_last_admin) (done (others id a.users u k h r))
      | inl r ↦ elim (Bool-cases (count_active_admins_excluding id a.users == 0)) [
        | inl z ↦ rw (i, r, z, guard_last_admin) (refused last_admin)
        | inr z ↦ rw (i, r, z, guard_last_admin) (done (λ p. counted (λ q. ground arith)))
      ]
    ]
  ]

  -- Where the ids of the users differ: whatever the answer, if there was an active admin there
  -- still is one. An error leaves every table as it was; a success leaves the user inactive,
  -- every token of the user revoked and every push subscription of the user paused.
  pub deactivate_user_cascade-Effect :
      AreUsers a.users → Effect id a (deactivate_user_cascade id now a)
  unfolding deactivate_user_cascade
  deactivate_user_cascade-Effect k = elim (Option-cases (get_user_by_id id a.users)) [
    | inl e ↦ rw (e, deactivate_user_cascade) (refused user_not_found)
    | inr (u, e) ↦ rw (e, deactivate_user_cascade) (guard-Effect u k e)
  ]
