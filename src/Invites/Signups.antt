-- ===== src/Invites/Signups.antt =====
-- internal/invites/provision.go: what a signup that succeeds came from and did.
use hooks.Prelude.{
  ℕ, ◌≤◌, ◌≡◌, refl, sym, ap, ◌∙◌, subst, String, [], ◌∷◌, ◌++◌, true, false, Option, none, some,
  arith, Result, ok, err, any, string_eq,
}
use hooks.Store.Rows.{set_where}
use hooks.Store.Users.{User, user_is}
use hooks.Store.Invites.{
  Invite, InviteDb, get_invite_by_code, is_unconsumed, signup_tx, redeems, open_bootstrap,
  email_taken, mark_bootstrap_invites_consumed,
}
use hooks.Users.{PolicyError, validate_password}
use hooks.Invites.{
  Inviter, Registrar, SignupRequest, provision, provision_found, provision_hashed, settled,
  new_user, is_past, policy_passed,
}

-- The tables after the signup of a user: the invite and the open bootstrap invites are consumed, and
-- the user is the one row more.
abbrev pub signed_up : String → User → ℕ → InviteDb → InviteDb
signed_up code u now db = record {
  invites =
      set_where open_bootstrap
        (λ i. record i { consumed_at = some now; consumed_by_user_id = some u.id })
        (set_where (redeems code)
          (λ i. record i { consumed_at = some now; consumed_by_user_id = some u.id }) db.invites);
  users = db.users ++ u ∷ [];
}

-- The user is the one that the request names, with the role and the scopes of the invite.
abbrev pub FromInvite : Registrar → Invite → SignupRequest → String → ℕ → User → Type 0
FromInvite x i r hash now u =
    (u.id ≡ x.new_id)
    × (u.email ≡ r.email)
    × (u.name ≡ r.name)
    × (u.role ≡ i.role)
    × (u.default_scopes ≡ i.default_scopes)
    × (u.password_hash ≡ hash)
    × (u.created_at ≡ now)
    × (u.deactivated_at ≡ none)
    × (u.external_id ≡ none)

abbrev pub Provisioned : Registrar → SignupRequest → ℕ → InviteDb → User → InviteDb → Type 0
Provisioned x r now db u after =
    (i : Invite) × (hash : String) × (get_invite_by_code r.code db.invites ≡ some i)
    × (i.consumed_at ≡ none)
    × ((e : ℕ) → i.expires_at ≡ some e → now ≤ e)
    × (validate_password x.to_lower r.email r.password ≡ ok tt)
    × (x.hash_password r.password ≡ some hash)
    × FromInvite x i r hash now u
    × (any (user_is u.id) db.users ≡ false)
    × (email_taken x.fold u.email db.users ≡ false)
    × (after ≡ signed_up r.code u now db)

settled-ok :
    (x : Registrar) (r : SignupRequest) (now : ℕ) (s : Inviter) (v u : User)
    → (settled r v s (signup_tx x.fold r.code v now s.db)).0 ≡ ok u
    → (v ≡ u)
      × (any (user_is v.id) s.db.users ≡ false)
      × (email_taken x.fold v.email s.db.users ≡ false)
      × ((settled r v s (signup_tx x.fold r.code v now s.db)).1.db ≡ signed_up r.code v now s.db)
unfolding signup_tx mark_bootstrap_invites_consumed
settled-ok x r now s v u h = (ground arith, ground arith, ground arith, ground arith)

provision_hashed-ok :
    (x : Registrar) (r : SignupRequest) (now : ℕ) (s : Inviter) (i : Invite) (u : User)
    (o : Option String)
    → x.hash_password r.password ≡ o
    → (provision_hashed x r now s i o).0 ≡ ok u
    → (hash : String) × (x.hash_password r.password ≡ some hash)
      × (u ≡ new_user x i r hash now)
      × (any (user_is u.id) s.db.users ≡ false)
      × (email_taken x.fold u.email s.db.users ≡ false)
      × ((provision_hashed x r now s i o).1.db ≡ signed_up r.code u now s.db)
provision_hashed-ok x r now s i u none q h = absurd (ground (arith, h))
provision_hashed-ok x r now s i u (some hash) q h =
    let (same, fresh, email, after) = settled-ok x r now s (new_user x i r hash now) u h in
    (
      hash,
      q,
      sym same,
      subst (λ v. any (user_is v.id) s.db.users ≡ false) same fresh,
      subst (λ v. email_taken x.fold v.email s.db.users ≡ false) same email,
      after ∙ ap (λ v. signed_up r.code v now s.db) same,
    )

provision_found-passed :
    (x : Registrar) (r : SignupRequest) (now : ℕ) (s : Inviter) (i : Invite) (u : User)
    → (provision_found x r now s (some i)).0 ≡ ok u
    → (is_unconsumed i ≡ true)
      × (is_past now i.expires_at ≡ false)
      × (policy_passed (validate_password x.to_lower r.email r.password) ≡ true)
      × (provision_found x r now s (some i)
          ≡ provision_hashed x r now s i (x.hash_password r.password))
unfolding provision_found
provision_found-passed x r now s i u h =
    let open_invite : is_unconsumed i ≡ true = ground arith in
    let in_time : is_past now i.expires_at ≡ false = ground arith in
    let passed : policy_passed (validate_password x.to_lower r.email r.password) ≡ true =
      ground arith in
    (open_invite, in_time, passed, ground arith)

is_past-le : (now : ℕ) (o : Option ℕ) → is_past now o ≡ false → (e : ℕ) → o ≡ some e → now ≤ e
is_past-le now none h e q = ground (arith, q)
is_past-le now (some x) h e q = ground (arith, h, q)

passed-ok : (r : Result PolicyError Unit) → policy_passed r ≡ true → r ≡ ok tt
passed-ok (ok _) h = refl
passed-ok (err e) h = absurd (cc)

provision_found-Provisioned :
    (x : Registrar) (r : SignupRequest) (now : ℕ) (s : Inviter) (u : User) (o : Option Invite)
    → get_invite_by_code r.code s.db.invites ≡ o
    → (provision_found x r now s o).0 ≡ ok u
    → Provisioned x r now s.db u (provision_found x r now s o).1.db
provision_found-Provisioned x r now s u none q h =
    absurd (unfold provision_found in ground (arith, h))
provision_found-Provisioned x r now s u (some i) q h =
    let (unused, in_time, passed, same) = provision_found-passed x r now s i u h in
    let (hash, hashed, made, fresh, email, after) =
      provision_hashed-ok x r now s i u (x.hash_password r.password) refl
        (ap (λ a. a.0) (sym same) ∙ h) in
    (
      i,
      hash,
      q,
      ground arith,
      is_past-le now i.expires_at in_time,
      passed-ok (validate_password x.to_lower r.email r.password) passed,
      hashed,
      subst (FromInvite x i r hash now) (sym made)
          (refl, refl, refl, refl, refl, refl, refl, refl, refl),
      fresh,
      email,
      ap (λ a. a.1.db) same ∙ after,
    )

-- A signup succeeds only with the code of an invite that is not consumed and not past its time, a
-- password that the policy takes, and an id and an email that no user has; the user is active, with
-- the email and name of the request, the hash of its password and the invite's role and scopes, and
-- the same transaction adds the user and consumes the invite and the
-- bootstrap invites that were open.
pub provision-Provisioned :
    (x : Registrar) (r : SignupRequest) (now : ℕ) (s : Inviter) (u : User)
    → (provision x r now s).0 ≡ ok u
    → Provisioned x r now s.db u (provision x r now s).1.db
unfolding provision
provision-Provisioned x r now s u h =
    provision_found-Provisioned x r now s u (get_invite_by_code r.code s.db.invites) refl h
