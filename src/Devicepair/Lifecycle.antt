-- ===== src/Devicepair/Lifecycle.antt =====
-- internal/devicepair/api.go: what every sequence of calls keeps true of the pairings.
use hooks.Prelude.{
  ℕ, ◌≡◌, refl, sym, subst, ◌-◌, string_eq, String, List, [], ◌∷◌, Bool, true, false, not, ◌||◌,
  Option, none, some, ltb, ◌==◌, Result, ok, err, after_if,
}
use hooks.Store.Users.{User}
use hooks.Store.Scopes.{Scopes, subset_of, held_by_user}
use hooks.Store.Pairings.{
  DevicePairing, insert_device_pairing, approve_device_pairing, deny_device_pairing,
  expire_pending_device_pairings, get_by_user_code, is_pending, PairingError, empty_argument,
  pairing_refused, pairing_not_found,
}
use hooks.Store.Pairings.Lifecycle.{
  SealedDb, insert_device_pairing-SealedDb, approve_device_pairing-SealedDb,
  deny_device_pairing-SealedDb, mark_device_pairing_fetched-SealedDb, expire_pending-SealedDb,
  delete_old-SealedDb,
}
use hooks.Devicepair.{
  Pairer, Body, no_body, bad_body, body, StartRequest, Client, start, start_requested,
  insert_started, started, sweep, requested, pairing_retention,
}
use hooks.Devicepair.Polling.{mark_fetched}
use hooks.Devicepair.Deciding.{
  Approver, ApproveRequest, IssueResult, approve, approve_core, approve_verified, approve_found,
  mint, deny, deny_core, pairing_token, or_requested,
}
use hooks.Devicepair.Codes.{normalize_user_code}

-- The calls and the sweeper's ticks, with what each gets from outside.
pub data PairingCall : Type 0 where
  starts : (device user : Option String) → ℕ → Client → Body StartRequest → PairingCall
  approves : Approver → Option User → Option ApproveRequest → ℕ → PairingCall
  denies : Option User → Option String → PairingCall
  marks : String → PairingCall
  sweeps : ℕ → PairingCall

module _ (to_upper : String → String) (is_user : String → Bool) where
  unfoldable pub call : PairingCall → Pairer → Pairer
  unfolding start approve deny mark_fetched sweep
  call (starts device user now client b) s = (start is_user device user now client b s).1
  call (approves x caller r now) s = (approve to_upper x caller r now s).1
  call (denies caller code) s = (deny to_upper is_user caller code s).1
  call (marks code) s = mark_fetched code s
  call (sweeps now) s = sweep now s

  abbrev pub calls : List PairingCall → Pairer → Pairer
  calls [] s = s
  calls (c ∷ cs) s = calls cs (call c s)

abbrev Safe : Pairer → Type 0
Safe s = SealedDb s.db

insert_started-db :
    (is_user : String → Bool) (dp : DevicePairing) (s : Pairer)
    → (insert_started is_user dp s).1.db ≡ (insert_device_pairing is_user dp s.db).1
unfolding insert_started
insert_started-db is_user dp s = go (insert_device_pairing is_user dp s.db).0 refl
  where
    go :
        (r : Result PairingError Unit)
        → (insert_device_pairing is_user dp s.db).0 ≡ r
        → (insert_started is_user dp s).1.db ≡ (insert_device_pairing is_user dp s.db).1
    go (ok _) e = rw (e, insert_started) refl
    go (err _) e = rw (e, insert_started) refl

insert_started-Safe :
    (is_user : String → Bool) (d u : String) (now : ℕ) (client : Client) (scopes : Scopes)
    (s : Pairer)
    → Safe s
    → Safe (insert_started is_user (started d u now client scopes) s).1
insert_started-Safe is_user d u now client scopes s h =
    let dp = started d u now client scopes in
    subst SealedDb (sym (insert_started-db is_user dp s))
      (insert_device_pairing-SealedDb is_user dp s.db refl refl h)

start_requested-Safe :
    (is_user : String → Bool) (d u : Option String) (now : ℕ) (client : Client) (r : StartRequest)
    (s : Pairer)
    → Safe s
    → Safe (start_requested is_user d u now client r s).1
unfolding start_requested
start_requested-Safe is_user none u now client r s h = h
start_requested-Safe is_user (some d) none now client r s h = h
start_requested-Safe is_user (some d) (some u) now client r s h =
    insert_started-Safe is_user d u now client (requested r) s h

-- What an approval does to the tables when a token was generated.
mint-db :
    (x : Approver) (caller : User) (code : String) (p : DevicePairing) (granted : Scopes) (now : ℕ)
    (s : Pairer) (g : IssueResult)
    → x.generated ≡ some g
    → (mint x caller code p granted now s).1.db
      ≡ (approve_device_pairing x.is_user code
          (pairing_token g granted now)
          g.plaintext
          caller.id
          now
          s.db).1
unfolding mint
mint-db x caller code p granted now s g q =
    go
      (approve_device_pairing x.is_user code (pairing_token g granted now) g.plaintext caller.id now
        s.db).0
      refl
  where
    go :
        (r : Result PairingError Unit)
        → (approve_device_pairing x.is_user code
            (pairing_token g granted now)
            g.plaintext
            caller.id
            now
            s.db).0
          ≡ r
        → (mint x caller code p granted now s).1.db
          ≡ (approve_device_pairing x.is_user code
              (pairing_token g granted now)
              g.plaintext
              caller.id
              now
              s.db).1
    go (ok _) e = rw (q, e, mint) refl
    go (err _) e = rw (q, e, mint) refl

mint-Safe :
    (x : Approver) (caller : User) (code : String) (p : DevicePairing) (granted : Scopes) (now : ℕ)
    (s : Pairer)
    → Safe s
    → Safe (mint x caller code p granted now s).1
unfolding mint
mint-Safe x caller code p granted now s h = go x.generated refl
  where
    go : (o : Option IssueResult) → x.generated ≡ o → Safe (mint x caller code p granted now s).1
    go none q = rw (q, mint) h
    go (some g) q = subst SealedDb (sym (mint-db x caller code p granted now s g q)) (
        approve_device_pairing-SealedDb x.is_user code (pairing_token g granted now) g.plaintext
          caller.id now s.db h)

approve_found-Safe :
    (x : Approver) (caller : User) (code : String) (granted : Scopes) (now : ℕ) (s : Pairer)
    (o : Option DevicePairing)
    → Safe s
    → Safe (approve_found x caller code granted now s o).1
unfolding approve_found
approve_found-Safe x caller code granted now s none h = h
approve_found-Safe x caller code granted now s (some p) h =
    after_if Safe (not (is_pending p.status)) _ _ (λ _. h)
      (λ _.
        after_if Safe (ltb p.expires_at now) _ _ (λ _. h)
          (λ _.
            after_if Safe (not (subset_of (or_requested granted p) p.requested_scopes)) _ _ (λ _. h)
              (λ _.
                after_if Safe (not (subset_of (or_requested granted p) (held_by_user caller))) _ _
                  (λ _. h) (λ _. mint-Safe x caller code p (or_requested granted p) now s h))))

approve_verified-Safe :
    (x : Approver) (caller : User) (code : String) (granted : Scopes) (now : ℕ) (s : Pairer)
    (o : Option Bool)
    → Safe s
    → Safe (approve_verified x caller code granted now s o).1
unfolding approve_verified
approve_verified-Safe x caller code granted now s none h = h
approve_verified-Safe x caller code granted now s (some false) h = h
approve_verified-Safe x caller code granted now s (some true) h =
    approve_found-Safe x caller code granted now s (get_by_user_code code s.db.pairings) h

approve-Safe :
    (to_upper : String → String) (x : Approver) (caller : Option User) (r : Option ApproveRequest)
    (now : ℕ) (s : Pairer)
    → Safe s
    → Safe (approve to_upper x caller r now s).1
unfolding approve approve_core
approve-Safe to_upper x none r now s h = h
approve-Safe to_upper x (some caller) none now s h = h
approve-Safe to_upper x (some caller) (some r) now s h =
    after_if Safe (normalize_user_code to_upper r.user_code == "" || r.password == "") _ _ (λ _. h)
      (λ _.
        approve_verified-Safe x caller (normalize_user_code to_upper r.user_code) r.granted_scopes
          now s (x.verify_password r.password caller.password_hash) h)

deny_core-db :
    (is_user : String → Bool) (caller : User) (code : String) (s : Pairer)
    → (deny_core is_user caller code s).1.db ≡ (deny_device_pairing is_user code caller.id s.db).1
unfolding deny_core
deny_core-db is_user caller code s = go (deny_device_pairing is_user code caller.id s.db).0 refl
  where
    go :
        (r : Result PairingError Unit)
        → (deny_device_pairing is_user code caller.id s.db).0 ≡ r
        → (deny_core is_user caller code s).1.db
          ≡ (deny_device_pairing is_user code caller.id s.db).1
    go (ok _) e = rw (e, deny_core) refl
    go (err empty_argument) e = rw (e, deny_core) refl
    go (err pairing_refused) e = rw (e, deny_core) refl
    go (err pairing_not_found) e = rw (e, deny_core) refl

deny-Safe :
    (to_upper : String → String) (is_user : String → Bool) (caller : Option User)
    (code : Option String) (s : Pairer)
    → Safe s
    → Safe (deny to_upper is_user caller code s).1
unfolding deny
deny-Safe to_upper is_user none code s h = h
deny-Safe to_upper is_user (some caller) none s h = h
deny-Safe to_upper is_user (some caller) (some code) s h =
    let u = normalize_user_code to_upper code in
    subst SealedDb (sym (deny_core-db is_user caller u s))
      (deny_device_pairing-SealedDb is_user u caller.id s.db h)

start-Safe :
    (is_user : String → Bool) (d u : Option String) (now : ℕ) (client : Client)
    (b : Body StartRequest) (s : Pairer)
    → Safe s
    → Safe (start is_user d u now client b s).1
unfolding start
start-Safe is_user d u now client bad_body s h = h
start-Safe is_user d u now client no_body s h =
    start_requested-Safe is_user d u now client (record { scopes = []; admin = false }) s h
start-Safe is_user d u now client (body r) s h = start_requested-Safe is_user d u now client r s h

call-Safe :
    (to_upper : String → String) (is_user : String → Bool) (c : PairingCall) (s : Pairer)
    → Safe s
    → Safe (call to_upper is_user c s)
unfolding call mark_fetched sweep
call-Safe to_upper is_user (starts d u now client b) s h = start-Safe is_user d u now client b s h
call-Safe to_upper is_user (approves x caller r now) s h = approve-Safe to_upper x caller r now s h
call-Safe to_upper is_user (denies caller code) s h = deny-Safe to_upper is_user caller code s h
call-Safe to_upper is_user (marks code) s h = mark_device_pairing_fetched-SealedDb code s.db h
call-Safe to_upper is_user (sweeps now) s h =
    delete_old-SealedDb (now - pairing_retention) (expire_pending_device_pairings now s.db).0
      (expire_pending-SealedDb now s.db h)

-- Whatever the calls on the pairings and their order, each row that waits to be fetched has its
-- plaintext and a token of the table, and no other row has a plaintext: once fetched, denied or
-- expired, a pairing holds none.
pub calls-SealedDb :
    (to_upper : String → String) (is_user : String → Bool) (cs : List PairingCall) (s : Pairer)
    → SealedDb s.db
    → SealedDb (calls to_upper is_user cs s).db
calls-SealedDb to_upper is_user [] s h = h
calls-SealedDb to_upper is_user (c ∷ cs) s h =
    calls-SealedDb to_upper is_user cs (call to_upper is_user c s)
      (call-Safe to_upper is_user c s h)
