-- ===== src/Devicepair/Once.antt =====
-- internal/devicepair/api.go: a token is handed out until its fetch is marked, and not after.
use hooks.Prelude.{
  ℕ, ◌≡◌, ◌≢◌, refl, sym, ap, ◌∙◌, subst, inl, inr, String, List, [], ◌∷◌, Bool, true, false, ◌&&◌,
  Option, none, some, arith, any, find?, All, Has, Bool-cases, string_eq, eq_of_beq,
}
use hooks.Store.Rows.{set_where}
use hooks.Store.Tokens.{TokenRow, get_token, token_is, token_from_gen}
use hooks.Store.Pairings.{
  PairingDb, DevicePairing, approved_unfetched, done, PairingTable, device_is, is_unfetched,
  get_by_device_code, mark_device_pairing_fetched,
}
use hooks.Store.Pairings.Lifecycle.{Sealed, SealedDb, HasToken}
use hooks.Devicepair.{Pairer}
use hooks.Devicepair.Polling.{
  handed, PollResponse, approved_token, respond, respond_approved, poll, poll_found, poll_status,
  mark_fetched, deref_string,
}

-- The row that a lookup finds is one of the table, with the code.
find-Has :
    {A : Type 0} (p : A → Bool) (x : A) (xs : List A)
    → find? p xs ≡ some x
    → Has x xs × (p x ≡ true)
find-Has p x [] h = absurd (ground arith)
find-Has p x (y ∷ xs) h = elim (Bool-cases (p y)) [
  | inl e ↦ let q : y ≡ x = ground arith in (inl q, subst (λ z. p z ≡ true) q e)
  | inr e ↦ let (m, k) = find-Has p x xs (ground arith) in (inr m, k)
]

any-find :
    {A : Type 0} (p : A → Bool) (xs : List A) → any p xs ≡ true → (x : A) × (find? p xs ≡ some x)
any-find p [] h = absurd (cc)
any-find p (y ∷ xs) h = elim (Bool-cases (p y)) [
  | inl e ↦ (y, ground arith)
  | inr e ↦ let (x, q) = any-find p xs (ground arith) in (x, ground arith)
]

All-Has : {A : Type 0} (P : A → Type 0) (x : A) (xs : List A) → All P xs → Has x xs → P x
All-Has P x [] h m = elim m [ ]
All-Has P x (y ∷ xs) h (inl e) = subst P e h.0
All-Has P x (y ∷ xs) h (inr m) = All-Has P x xs h.1 m

-- The response for a row and its token.
abbrev pub response : DevicePairing → String → TokenRow → PollResponse
response p plaintext r = record {
  token = plaintext;
  user_id = deref_string p.user_id;
  name = r.name;
  scopes = (token_from_gen r).scopes;
}

poll_status-unfetched :
    (now : ℕ) (db : PairingDb) (p : DevicePairing) (plaintext id : String) (r : TokenRow)
    → p.status ≡ approved_unfetched
    → p.plaintext_token ≡ some plaintext
    → p.token_id ≡ some id
    → get_token id db.tokens ≡ some r
    → poll_status now db p ≡ (handed (response p plaintext r), some p.device_code)
unfolding poll_status approved_token
poll_status-unfetched now db p plaintext id r e a b f =
    let t : approved_token p ≡ some (plaintext, id) = simp (e, a, b) refl in
    let q : poll_status now db p ≡ respond_approved db p (approved_token p) = ground (arith, e) in
    q ∙ ap (respond_approved db p) t ∙ ap (respond p plaintext) f

poll-unfetched :
    (code : String) (now : ℕ) (s : Pairer) (p : DevicePairing)
    → get_by_device_code code s.db.pairings ≡ some p
    → p.status ≡ approved_unfetched
    → HasToken s.db.tokens p
    → (plaintext : String) × (r : TokenRow) × (p.plaintext_token ≡ some plaintext)
      × Has r s.db.tokens
      × (p.token_id ≡ some r.id)
      × (poll (some code) now s ≡ (handed (response p plaintext r), some p.device_code))
unfolding poll poll_found poll_status approved_token get_token
poll-unfetched code now s p q e (plaintext, id, a, b, m) =
    let (r, f) = any-find (token_is id) s.db.tokens m in
    let (k, same) = find-Has (token_is id) r s.db.tokens f in
    (
      plaintext,
      r,
      a,
      k,
      b ∙ ap some (sym (eq_of_beq r.id id same)),
      rw q (poll_status-unfetched now s.db p plaintext id r e a b f),
    )

poll_status-handed :
    (now : ℕ) (db : PairingDb) (p : DevicePairing) (r : PollResponse)
    → (poll_status now db p).0 ≡ handed r
    → is_unfetched p.status ≡ true
unfolding poll_status
poll_status-handed now db p r h = ground (arith, h)

-- Rows with the code are not waiting.
abbrev IsGone : String → DevicePairing → Type 0
IsGone code p = device_is code p ≡ true → is_unfetched p.status ≡ false

abbrev fetched : String → DevicePairing → Bool
fetched code p = device_is code p && is_unfetched p.status

marked-IsGone :
    (code : String) (rows : PairingTable)
    → All
        (IsGone code)
        (set_where (fetched code) (λ p. record p { status = done; plaintext_token = none }) rows)
marked-IsGone code [] = tt
marked-IsGone code (p ∷ rows) = elim (Bool-cases (fetched code p)) [
  | inl e ↦ rw e ((λ _. refl), marked-IsGone code rows)
  | inr e ↦ rw e ((λ q. ground arith), marked-IsGone code rows)
]

unmarked-IsGone :
    (code : String) (rows : PairingTable) → any (fetched code) rows ≡ false → All (IsGone code) rows
unmarked-IsGone code [] h = tt
unmarked-IsGone code (p ∷ rows) h = ((λ q. ground arith), unmarked-IsGone code rows (ground arith))

mark_fetched-IsGone :
    (code : String) (s : Pairer) → All (IsGone code) (mark_fetched code s).db.pairings
unfolding mark_fetched mark_device_pairing_fetched
mark_fetched-IsGone code s = elim (Bool-cases (any (fetched code) s.db.pairings)) [
  | inl e ↦ rw e (marked-IsGone code s.db.pairings)
  | inr e ↦ rw e (unmarked-IsGone code s.db.pairings e)
]

-- No poll hands out where no row with the code waits.
gone-poll :
    (code : String) (now : ℕ) (s : Pairer) (r : PollResponse)
    → All (IsGone code) s.db.pairings
    → (poll (some code) now s).0 ≢ handed r
unfolding poll get_by_device_code
gone-poll code now s r h = go (get_by_device_code code s.db.pairings) refl
  where
    go :
        (o : Option DevicePairing)
        → get_by_device_code code s.db.pairings ≡ o
        → (poll_found now s.db o).0 ≢ handed r
    go none q k = absurd (unfold poll_found in ground (arith, k))
    go (some p) q k =
        let (m, e) = find-Has (device_is code) p s.db.pairings q in
        let u = poll_status-handed now s.db p r (unfold poll_found in k) in
        cc (u, All-Has (IsGone code) p s.db.pairings h m e)

-- While the row of a device code waits to be fetched, each poll answers with its plaintext, whatever
-- its expiry, and asks for the mark; after the mark no poll for the code hands out a token.
pub poll_once :
    (code : String) (now later : ℕ) (s : Pairer) (p : DevicePairing)
    → SealedDb s.db
    → get_by_device_code code s.db.pairings ≡ some p
    → p.status ≡ approved_unfetched
    → (plaintext : String) × (r : TokenRow) × (p.plaintext_token ≡ some plaintext)
      × Has r s.db.tokens
      × (p.token_id ≡ some r.id)
      × (poll (some code) now s ≡ (handed (response p plaintext r), some code))
      × ((a : PollResponse) → (poll (some code) later (mark_fetched code s)).0 ≢ handed a)
unfolding get_by_device_code
poll_once code now later s p h q e =
    let (m, k) = find-Has (device_is code) p s.db.pairings q in
    let (plaintext, r, a, b, c, f) =
      poll-unfetched code now s p q e ((All-Has (Sealed s.db.tokens) p s.db.pairings h m).0 e) in
    (
      plaintext,
      r,
      a,
      b,
      c,
      f ∙ ap (λ x. (handed (response p plaintext r), some x)) (eq_of_beq p.device_code code k),
      λ x. gone-poll code later (mark_fetched code s) x (mark_fetched-IsGone code s),
    )
