-- ===== src/Store/Pairings/Statements.antt =====
-- internal/store/device_pairings_store.go: every statement moves the rows forward.
use hooks.Prelude.{
  ℕ, ◌≡◌, refl, inl, String, Bool, not, ◌&&◌, ◌||◌, none, some, arith, ltb, ◌==◌, any, string_eq,
  after_if,
}
use hooks.Store.Tokens.{Token, token_is}
use hooks.Store.Pairings.{
  pending, approved_unfetched, done, denied, expired, DevicePairing, PairingDb, awaits, approved,
  is_pending, is_unfetched, is_terminal, device_is, insert_device_pairing, approve_device_pairing,
  deny_device_pairing, mark_device_pairing_fetched, expire_pending_device_pairings,
  delete_old_device_pairings, or_pending, pairing_conflicts,
}
use hooks.Store.Pairings.Transitions.{
  to_approved, to_denied, to_expired, Step, Step-same, Step-set_where, Step-append, Step-keep,
  update_pairing-Step, from_pending, from_unfetched,
}

-- The statements of the store on the pairings, with what each gets.
pub data Statement : Type 0 where
  insert : DevicePairing → Statement
  approval : (code : String) → Token → (plaintext approver : String) → ℕ → Statement
  denial : (code by : String) → Statement
  fetching : (device : String) → Statement
  expiry : ℕ → Statement
  deletion : ℕ → Statement

unfoldable pub execute : (String → Bool) → Statement → PairingDb → PairingDb
unfolding insert_device_pairing approve_device_pairing deny_device_pairing
    mark_device_pairing_fetched expire_pending_device_pairings delete_old_device_pairings
execute is_user (insert dp) db = (insert_device_pairing is_user dp db).1
execute is_user (approval code t plaintext approver now) db =
    (approve_device_pairing is_user code t plaintext approver now db).1
execute is_user (denial code by) db = (deny_device_pairing is_user code by db).1
execute is_user (fetching device) db = (mark_device_pairing_fetched device db).1
execute is_user (expiry before) db = (expire_pending_device_pairings before db).0
execute is_user (deletion before) db = (delete_old_device_pairings before db).0

-- Only pending rows are inserted, as `Start` does.
abbrev pub InsertsPending : Statement → Type 0
InsertsPending (insert dp) = dp.status ≡ pending
InsertsPending (approval code t plaintext approver now) = Unit {0}
InsertsPending (denial code by) = Unit {0}
InsertsPending (fetching device) = Unit {0}
InsertsPending (expiry before) = Unit {0}
InsertsPending (deletion before) = Unit {0}

-- After a statement every row is new and pending under a device code that no row had, or was there
-- under the same device code and stayed or moved forward: from pending to approved, denied or
-- expired, and from approved to done; and every row that was there still is, except
-- terminal ones. Insertions must be of pending rows.
pub execute-Step :
    (is_user : String → Bool) (c : Statement) (db : PairingDb)
    → InsertsPending c
    → Step db.pairings (execute is_user c db).pairings
unfolding execute
execute-Step is_user (insert dp) db h =
    let row : DevicePairing = record dp { status = or_pending dp.status } in
    let waits : or_pending dp.status ≡ pending = rw h refl in
    let P : PairingDb → Type 0 = λ d. Step db.pairings d.pairings in
    after_if P (dp.device_code == "" || dp.user_code == "") _ _ (λ _. Step-same db.pairings)
      (λ _.
        after_if P (pairing_conflicts is_user row db) _ _ (λ _. Step-same db.pairings)
          (λ e. Step-append db.pairings row (inl (waits, ground (arith, e)))))
execute-Step is_user (approval code t plaintext approver now) db h =
    let P : PairingDb → Type 0 = λ d. Step db.pairings d.pairings in
    after_if P (code == "" || t.id == "") _ _ (λ _. Step-same db.pairings)
      (λ _.
        after_if P (any (token_is t.id) db.tokens || not (is_user approver)) _ _
          (λ _. Step-same db.pairings)
          (λ _.
            after_if P (not (any (awaits code) db.pairings)) _ _ (λ _. Step-same db.pairings)
              (λ _.
                Step-set_where (awaits code) (approved approver plaintext t.id) db.pairings (λ x e.
                  (
                    refl,
                    from_pending x.status approved_unfetched (ground (arith, e)) to_approved,
                  )))))
execute-Step is_user (denial code by) db h =
    let P : PairingDb → Type 0 = λ d. Step db.pairings d.pairings in
    after_if P (any (awaits code) db.pairings && not (is_user by)) _ _ (λ _. Step-same db.pairings)
      (λ _.
        update_pairing-Step (awaits code) (λ p. record p { status = denied; user_id = some by }) db
          (λ x e. (refl, from_pending x.status denied (ground (arith, e)) to_denied)))
execute-Step is_user (fetching device) db h =
    update_pairing-Step (λ p. device_is device p && is_unfetched p.status)
      (λ p. record p { status = done; plaintext_token = none }) db
      (λ x e. (refl, from_unfetched x.status (ground (arith, e))))
execute-Step is_user (expiry before) db h =
    Step-set_where (λ p. is_pending p.status && ltb p.expires_at before)
      (λ p. record p { status = expired }) db.pairings
      (λ x e. (refl, from_pending x.status expired (ground (arith, e)) to_expired))
execute-Step is_user (deletion before) db h =
    Step-keep (λ p. is_terminal p.status && ltb p.created_at before) db.pairings
      (λ x e. ground (arith, e))
