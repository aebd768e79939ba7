-- ===== src/Store/Pairings/Lifecycle.antt =====
-- internal/store/device_pairings_store.go: what the statements keep true of the rows.
use hooks.Prelude.{
  ℕ, ◌≡◌, ◌≢◌, refl, inl, inr, String, List, [], ◌∷◌, ◌++◌, Bool, true, not, ◌&&◌, ◌||◌, none, some,
  arith, ltb, ◌==◌, any, All, All-imp, All-append, All-keep, Bool-cases, string_eq, beq_refl,
  after_if,
}
use hooks.Store.Rows.{All-set_where}
use hooks.Store.Tokens.{Token, TokenRow, TokenTable, token_is}
use hooks.Store.Pairings.{
  pending, approved_unfetched, done, denied, expired, DevicePairing, PairingDb, awaits, approved,
  minted, is_pending, is_unfetched, is_terminal, device_is, update_pairing, insert_device_pairing,
  approve_device_pairing, deny_device_pairing, mark_device_pairing_fetched,
  expire_pending_device_pairings, delete_old_device_pairings, or_pending, pairing_conflicts,
}

-- The row carries a plaintext and names a token of the table.
abbrev pub HasToken : TokenTable → DevicePairing → Type 0
HasToken tokens p =
    (plaintext id : String) × (p.plaintext_token ≡ some plaintext)
    × (p.token_id ≡ some id)
    × (any (token_is id) tokens ≡ true)

-- A plaintext stands in a row exactly while it waits to be fetched.
abbrev pub Sealed : TokenTable → DevicePairing → Type 0
Sealed tokens p =
    (p.status ≡ approved_unfetched → HasToken tokens p)
    × (p.status ≢ approved_unfetched → p.plaintext_token ≡ none)

abbrev pub SealedDb : PairingDb → Type 0
SealedDb db = All (Sealed db.tokens) db.pairings

any_last :
    {A : Type 0} (p : A → Bool) (x : A) (xs : List A) → p x ≡ true → any p (xs ++ x ∷ []) ≡ true
any_last p x [] h = ground arith
any_last p x (y ∷ xs) h = ground (arith, any_last p x xs h)

any_more :
    {A : Type 0} (p : A → Bool) (x : A) (xs : List A)
    → any p xs ≡ true
    → any p (xs ++ x ∷ []) ≡ true
any_more p x [] h = cc
any_more p x (y ∷ xs) h = ground (arith, any_more p x xs)

-- A token more breaks nothing.
Sealed-grow :
    (tokens : TokenTable) (r : TokenRow) (p : DevicePairing)
    → Sealed tokens p
    → Sealed (tokens ++ r ∷ []) p
Sealed-grow tokens r p h =
    ((λ e. let (x, id, a, b, m) = h.0 e in (x, id, a, b, any_more (token_is id) r tokens m)), h.1)

-- An update without change to the tokens, of rows in the status that it is meant for.
update_pairing-SealedDb :
    (p : DevicePairing → Bool) (f : DevicePairing → DevicePairing) (db : PairingDb)
    → ((x : DevicePairing) → p x ≡ true → Sealed db.tokens x → Sealed db.tokens (f x))
    → SealedDb db
    → SealedDb (update_pairing p f db).1
update_pairing-SealedDb p f db step h = elim (Bool-cases (any p db.pairings)) [
  | inl e ↦ rw e (All-set_where (Sealed db.tokens) p f db.pairings step h)
  | inr e ↦ rw e h
]

-- A pending row has no plaintext, and may take a status other than the approved one.
closed :
    (tokens : TokenTable) (p q : DevicePairing)
    → is_pending p.status ≡ true
    → q.status ≢ approved_unfetched
    → q.plaintext_token ≡ p.plaintext_token
    → Sealed tokens p
    → Sealed tokens q
closed tokens p q e n k h = ((λ r. absurd (n r)), λ _. ground (arith, k, h.1 (λ r. ground arith)))

pub insert_device_pairing-SealedDb :
    (is_user : String → Bool) (dp : DevicePairing) (db : PairingDb)
    → dp.status ≡ pending
    → dp.plaintext_token ≡ none
    → SealedDb db
    → SealedDb (insert_device_pairing is_user dp db).1
unfolding insert_device_pairing
insert_device_pairing-SealedDb is_user dp db s n h =
    let row : DevicePairing = record dp { status = or_pending dp.status } in
    let waits : or_pending dp.status ≡ pending = rw s refl in
    after_if SealedDb (dp.device_code == "" || dp.user_code == "") _ _ (λ _. h)
      (λ _.
        after_if SealedDb (pairing_conflicts is_user row db) _ _ (λ _. h)
          (λ _.
            All-append (Sealed db.tokens) db.pairings (row ∷ []) h
              (((λ r. ground (arith, waits)), λ _. n), tt)))

pub approve_device_pairing-SealedDb :
    (is_user : String → Bool) (code : String) (t : Token) (plaintext approver : String) (now : ℕ)
    (db : PairingDb)
    → SealedDb db
    → SealedDb (approve_device_pairing is_user code t plaintext approver now db).1
unfolding approve_device_pairing
approve_device_pairing-SealedDb is_user code t plaintext approver now db h =
    let tokens = db.tokens ++ minted t approver now ∷ [] in
    let grown = All-imp db.pairings (Sealed-grow db.tokens (minted t approver now)) h in
    after_if SealedDb (code == "" || t.id == "") _ _ (λ _. h)
      (λ _.
        after_if SealedDb (any (token_is t.id) db.tokens || not (is_user approver)) _ _ (λ _. h)
          (λ _.
            after_if SealedDb (not (any (awaits code) db.pairings)) _ _ (λ _. h)
              (λ _.
                All-set_where (Sealed tokens) (awaits code) (approved approver plaintext t.id)
                  db.pairings
                  (λ p e k. (
                    (λ _. (
                      plaintext,
                      t.id,
                      refl,
                      refl,
                      any_last (token_is t.id) (minted t approver now) db.tokens (beq_refl t.id),
                    )),
                    λ r. absurd (r refl),
                  ))
                  grown)))

pub deny_device_pairing-SealedDb :
    (is_user : String → Bool) (code by : String) (db : PairingDb)
    → SealedDb db
    → SealedDb (deny_device_pairing is_user code by db).1
unfolding deny_device_pairing
deny_device_pairing-SealedDb is_user code by db h =
    after_if SealedDb (any (awaits code) db.pairings && not (is_user by)) _ _ (λ _. h)
      (λ _.
        update_pairing-SealedDb (awaits code) (λ p. record p { status = denied; user_id = some by })
          db
          (λ p e k.
            closed db.tokens p (record p { status = denied; user_id = some by }) (ground arith)
              (λ q. ground arith) refl k)
          h)

pub mark_device_pairing_fetched-SealedDb :
    (code : String) (db : PairingDb)
    → SealedDb db
    → SealedDb (mark_device_pairing_fetched code db).1
unfolding mark_device_pairing_fetched
mark_device_pairing_fetched-SealedDb code db h =
    update_pairing-SealedDb (λ p. device_is code p && is_unfetched p.status)
      (λ p. record p { status = done; plaintext_token = none }) db
      (λ p e k. ((λ r. ground arith), λ _. refl)) h

pub expire_pending-SealedDb :
    (before : ℕ) (db : PairingDb)
    → SealedDb db
    → SealedDb (expire_pending_device_pairings before db).0
unfolding expire_pending_device_pairings
expire_pending-SealedDb before db h =
    All-set_where (Sealed db.tokens) (λ p. is_pending p.status && ltb p.expires_at before)
      (λ p. record p { status = expired }) db.pairings
      (λ p e k.
        closed db.tokens p (record p { status = expired }) (ground arith) (λ q. ground arith) refl
          k)
      h

pub delete_old-SealedDb :
    (before : ℕ) (db : PairingDb) → SealedDb db → SealedDb (delete_old_device_pairings before db).0
unfolding delete_old_device_pairings
delete_old-SealedDb before db h =
    All-keep (Sealed db.tokens) (λ p. not (is_terminal p.status && ltb p.created_at before))
      db.pairings h
