-- ===== src/Devicepair/Approval.antt =====
-- internal/devicepair/api.go: what `ApproveCore` grants.
use hooks.Prelude.{
  ℕ, ◌≤◌, ◌≡◌, ◌≢◌, ◌⊎◌, refl, sym, ap, ◌∙◌, subst, String, [], ◌∷◌, ◌++◌, Bool, true, false,
  Option, none, some, arith, ltb, Result, ok, err, Has, string_eq, join,
}
use hooks.Store.Rows.{set_where}
use hooks.Store.Tokens.{TokenRow, pat}
use hooks.Store.Users.{User}
use hooks.Store.Scopes.{Scopes, scope_all, subset_of, held_by_user}
use hooks.Store.Scopes.Authority.{MayGrant, held_by_user-MayGrant}
use hooks.Store.Scopes.Sets.{subset_of_iff}
use hooks.Store.Pairings.{
  PairingDb, DevicePairing, PairingError, pending, approve_device_pairing, get_by_user_code,
  is_pending, approved_unfetched, awaits,
}
use hooks.Devicepair.{Pairer}
use hooks.Devicepair.Deciding.{
  Approver, ApproveError, internal, IssueResult, approve_core, approve_verified, approve_found,
  mint, pairing_token, or_requested,
}

-- The scopes were asked for, unless the wildcard was.
abbrev pub WasAsked : DevicePairing → Scopes → Type 0
WasAsked p granted =
    Has scope_all p.requested_scopes
    ⊎ ((name : String) → Has name granted → Has name p.requested_scopes)

-- The row of a personal token: the caller's, with the scopes granted, which are stored as one text.
abbrev pub personal_row : IssueResult → Scopes → User → ℕ → TokenRow
personal_row g granted u now = record {
  id = g.id;
  name = "device-pairing";
  scopes = join "," granted;
  secret_hash = g.hash;
  created_at = now;
  last_used_at = none;
  revoked_at = none;
  owner_user_id = some u.id;
  kind = pat;
  ephemeral = false;
  expires_at = none;
}

-- The database with the token of the generated secret and the rows of the code approved.
abbrev pub granted_db : String → IssueResult → Scopes → User → ℕ → PairingDb → PairingDb
granted_db code g granted u now db = record {
  pairings =
      set_where (awaits code)
        (λ p. record p {
          status = approved_unfetched;
          user_id = some u.id;
          plaintext_token = some g.plaintext;
          token_id = some g.id;
        })
        db.pairings;
  tokens = db.tokens ++ personal_row g granted u now ∷ [];
}

approve_device_pairing-ok :
    (is_user : String → Bool) (code : String) (g : IssueResult) (granted : Scopes) (u : User)
    (now : ℕ) (db : PairingDb)
    → (approve_device_pairing is_user code (pairing_token g granted now) g.plaintext u.id now db).0
      ≡ ok tt
    → (approve_device_pairing is_user code (pairing_token g granted now) g.plaintext u.id now db).1
      ≡ granted_db code g granted u now db
unfolding approve_device_pairing
approve_device_pairing-ok is_user code g granted u now db h = ground arith

approve_device_pairing-err :
    (is_user : String → Bool) (code : String) (g : IssueResult) (granted : Scopes) (u : User)
    (now : ℕ) (db : PairingDb) (e : PairingError)
    → (approve_device_pairing is_user code (pairing_token g granted now) g.plaintext u.id now db).0
      ≡ err e
    → (approve_device_pairing is_user code (pairing_token g granted now) g.plaintext u.id now db).1
      ≡ db
unfolding approve_device_pairing
approve_device_pairing-err is_user code g granted u now db e h = ground arith

-- What an approval that succeeds came from and did; a grant of no scopes is one of those requested.
abbrev pub Approved :
    Approver → User → String → String → Scopes → ℕ → PairingDb → PairingDb → Type 0
Approved x u code password granted now db after =
    (p : DevicePairing) × (g : IssueResult) × (scopes : Scopes) × (get_by_user_code code db.pairings
      ≡ some p)
    × (p.status ≡ pending)
    × (now ≤ p.expires_at)
    × (x.verify_password password u.password_hash ≡ some true)
    × (x.generated ≡ some g)
    × (granted ≡ [] → scopes ≡ p.requested_scopes)
    × (granted ≢ [] → scopes ≡ granted)
    × WasAsked p scopes
    × MayGrant u scopes
    × (after ≡ granted_db code g scopes u now db)

mint-refused :
    (x : Approver) (u : User) (code : String) (p : DevicePairing) (granted : Scopes) (now : ℕ)
    (s : Pairer) (g : IssueResult) (b : PairingError)
    → x.generated ≡ some g
    → (approve_device_pairing x.is_user code
        (pairing_token g granted now)
        g.plaintext
        u.id
        now
        s.db).0
      ≡ err b
    → (mint x u code p granted now s).0 ≡ err internal
unfolding mint
mint-refused x u code p granted now s g b q e = rw (q, e, mint) refl

mint-ok :
    (x : Approver) (u : User) (code : String) (p : DevicePairing) (granted : Scopes) (now : ℕ)
    (s : Pairer)
    → (mint x u code p granted now s).0 ≡ ok tt
    → (g : IssueResult) × (x.generated ≡ some g)
      × ((mint x u code p granted now s).1.db ≡ granted_db code g granted u now s.db)
unfolding mint
mint-ok x u code p granted now s h = generated x.generated refl
  where
    tried :
        (g : IssueResult) (r : Result PairingError Unit)
        → x.generated ≡ some g
        → (approve_device_pairing x.is_user code
            (pairing_token g granted now)
            g.plaintext
            u.id
            now
            s.db).0
          ≡ r
        → (mint x u code p granted now s).1.db ≡ granted_db code g granted u now s.db
    tried g (ok _) q e =
        rw (q, e, mint) (approve_device_pairing-ok x.is_user code g granted u now s.db e)
    tried g (err b) q e = absurd (cc (h, mint-refused x u code p granted now s g b q e))

    generated :
        (o : Option IssueResult)
        → x.generated ≡ o
        → (g : IssueResult) × (x.generated ≡ some g)
          × ((mint x u code p granted now s).1.db ≡ granted_db code g granted u now s.db)
    generated none q = absurd (ground (arith, q, h))
    generated (some g) q = (
      g,
      q,
      tried g
          (approve_device_pairing x.is_user code (pairing_token g granted now) g.plaintext u.id now
            s.db).0
          q refl,
    )

-- An approval that succeeds passed the guards, and went on to the minting.
approve_found-passed :
    (x : Approver) (u : User) (code : String) (granted : Scopes) (now : ℕ) (s : Pairer)
    (p : DevicePairing)
    → (approve_found x u code granted now s (some p)).0 ≡ ok tt
    → (is_pending p.status ≡ true)
      × (ltb p.expires_at now ≡ false)
      × (subset_of (or_requested granted p) p.requested_scopes ≡ true)
      × (subset_of (or_requested granted p) (held_by_user u) ≡ true)
      × (approve_found x u code granted now s (some p)
          ≡ mint x u code p (or_requested granted p) now s)
unfolding approve_found
approve_found-passed x u code granted now s p h =
    let pend : is_pending p.status ≡ true = ground arith in
    let early : ltb p.expires_at now ≡ false = ground arith in
    let asked : subset_of (or_requested granted p) p.requested_scopes ≡ true = ground arith in
    let held : subset_of (or_requested granted p) (held_by_user u) ≡ true = ground arith in
    (pend, early, asked, held, ground arith)

ask_all :
    (granted : Scopes) (p : DevicePairing)
    → granted ≡ []
    → or_requested granted p ≡ p.requested_scopes
ask_all granted p h = ground (arith, h)

ask_some : (granted : Scopes) (p : DevicePairing) → granted ≢ [] → or_requested granted p ≡ granted
ask_some [] p h = absurd (h refl)
ask_some (s ∷ granted) p h = ground arith

approve_found-Approved :
    (x : Approver) (u : User) (code password : String) (granted : Scopes) (now : ℕ) (s : Pairer)
    (o : Option DevicePairing)
    → get_by_user_code code s.db.pairings ≡ o
    → x.verify_password password u.password_hash ≡ some true
    → (approve_found x u code granted now s o).0 ≡ ok tt
    → Approved x u code password granted now s.db (approve_found x u code granted now s o).1.db
approve_found-Approved x u code password granted now s none q v h = absurd (none_found h)
  where
    none_found : (approve_found x u code granted now s none).0 ≢ ok tt
    none_found k = unfold approve_found in ground (arith, k)
approve_found-Approved x u code password granted now s (some p) q v h =
    let (pend, early, asked, held, same) = approve_found-passed x u code granted now s p h in
    let (g, made, after) =
      mint-ok x u code p (or_requested granted p) now s (ap (λ r. r.0) (sym same) ∙ h) in
    (
      p,
      g,
      or_requested granted p,
      q,
      ground arith,
      ground arith,
      v,
      made,
      ask_all granted p,
      ask_some granted p,
      (subset_of_iff (or_requested granted p) p.requested_scopes).0 asked,
      held_by_user-MayGrant u (or_requested granted p) held,
      ap (λ r. r.1.db) same ∙ after,
    )

approve_verified-Approved :
    (x : Approver) (u : User) (code password : String) (granted : Scopes) (now : ℕ) (s : Pairer)
    (o : Option Bool)
    → x.verify_password password u.password_hash ≡ o
    → (approve_verified x u code granted now s o).0 ≡ ok tt
    → Approved x u code password granted now s.db (approve_verified x u code granted now s o).1.db
unfolding approve_verified
approve_verified-Approved x u code password granted now s none v h = absurd (ground (arith, h))
approve_verified-Approved x u code password granted now s (some false) v h =
    absurd (ground (arith, h))
approve_verified-Approved x u code password granted now s (some true) v h =
    approve_found-Approved x u code password granted now s (get_by_user_code code s.db.pairings)
      refl v h

-- An approval succeeds only with the caller's password, on a pairing with that code that is pending
-- and not past its time, for the scopes granted, or those requested where the grant is empty, all of
-- which were asked for and may be granted by the caller; it then
-- approves the pairing and adds the row of one personal token, of the caller, unrevoked and without
-- an expiry, with just those scopes, both at once. The account scope is not added to them.
pub approve_core-Approved :
    (x : Approver) (u : User) (code password : String) (granted : Scopes) (now : ℕ) (s : Pairer)
    → (approve_core x u code password granted now s).0 ≡ ok tt
    → Approved x u code password granted now s.db
        (approve_core x u code password granted now s).1.db
unfolding approve_core
approve_core-Approved x u code password granted now s h =
    let same : approve_core x u code password granted now s
        ≡ approve_verified x u code granted now s (x.verify_password password u.password_hash) =
      ground arith in
    subst
      (λ (r : Result ApproveError Unit × Pairer).
        Approved x u code password granted now s.db r.1.db)
      (sym same)
      (approve_verified-Approved x u code password granted now s
        (x.verify_password password u.password_hash) refl (ap (λ r. r.0) (sym same) ∙ h))
