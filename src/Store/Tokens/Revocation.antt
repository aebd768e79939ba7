-- ===== src/Store/Tokens/Revocation.antt =====
-- internal/store/sqlite.go: revoked tokens under later calls, and the sweep of idle tokens.
use hooks.Prelude.{
  ℕ, ◌≡◌, refl, sym, subst, inl, inr, String, List, [], ◌∷◌, ◌++◌, Bool, true, false, not, ◌&&◌,
  ◌||◌, Option, none, some, ltb, if◌then◌else◌, Result, ok, err, arith, any, string_eq, nat_eq,
  Bool-cases,
}
use hooks.Store.Rows.{StoreError, constraint_failed, set_where, update_where, update_where-rows}
use hooks.Store.Tokens.{
  TokenRow, Token, TokenTable, InsertError, token_kind_required, token_refused, token_is,
  kind_given, token_owner_known, row_of_token, is_unrevoked, last_seen, insert_token,
  touch_last_used, get_token, revoke, revoke_tokens_by_owner, expire_ephemeral_tokens_idle,
  update_token_owner,
}

-- A call that changes the table.
pub data TokenChange : Type 0 where
  inserts : Token → TokenChange
  touches : String → ℕ → TokenChange
  revokes : String → ℕ → TokenChange
  revokes_owner : String → ℕ → TokenChange
  expires : ℕ → ℕ → TokenChange
  reassigns : String → Option String → TokenChange

unfoldable pub token_change : (String → Bool) → TokenChange → TokenTable → TokenTable
unfolding insert_token touch_last_used revoke revoke_tokens_by_owner expire_ephemeral_tokens_idle
    update_token_owner
token_change is_user (inserts t) rows = (insert_token is_user t rows).1
token_change is_user (touches id now) rows = touch_last_used id now rows
token_change is_user (revokes id now) rows = (revoke id now rows).1
token_change is_user (revokes_owner owner now) rows = (revoke_tokens_by_owner owner now rows).0
token_change is_user (expires now cutoff) rows = (expire_ephemeral_tokens_idle now cutoff rows).0
token_change is_user (reassigns id owner) rows = (update_token_owner is_user id owner rows).1

unfoldable pub token_changes : (String → Bool) → List TokenChange → TokenTable → TokenTable
unfolding token_change
token_changes is_user [] rows = rows
token_changes is_user (c ∷ cs) rows = token_changes is_user cs (token_change is_user c rows)

-- The id is found, and its row was revoked at this time.
abbrev pub RevokedAt : String → ℕ → TokenTable → Type 0
RevokedAt id t rows = (r : TokenRow) × (get_token id rows ≡ some r) × (r.revoked_at ≡ some t)

module _ (id : String) (t : ℕ) (p : TokenRow → Bool) (f : TokenRow → TokenRow)
    (same : (x : TokenRow) → (f x).id ≡ x.id)
    (kept : (x : TokenRow) → x.revoked_at ≡ some t → p x ≡ true → (f x).revoked_at ≡ some t) where
  set_where-RevokedAt :
      (rows : TokenTable) → RevokedAt id t rows → RevokedAt id t (set_where p f rows)
  unfolding get_token
  set_where-RevokedAt [] (r, h, e) = absurd (ground arith)
  set_where-RevokedAt (x ∷ rows) (r, h, e) = elim (Bool-cases (token_is id x)) [
    | inr n ↦
        let (r', h', e') = set_where-RevokedAt rows (r, ground arith, e) in
        (r', ground (arith, same x), e')
    | inl n ↦ elim (Bool-cases (p x)) [
      | inl q ↦ (f x, ground (arith, same x), kept x (ground arith) q)
      | inr q ↦ (x, ground arith, ground arith)
    ]
  ]

  update_where-RevokedAt :
      (rows : TokenTable) → RevokedAt id t rows → RevokedAt id t (update_where p f rows).1
  update_where-RevokedAt rows r =
      subst (RevokedAt id t) (sym (update_where-rows p f rows)) (set_where-RevokedAt rows r)

append-RevokedAt :
    (id : String) (t : ℕ) (new : TokenRow) (rows : TokenTable)
    → RevokedAt id t rows
    → RevokedAt id t (rows ++ new ∷ [])
unfolding get_token
append-RevokedAt id t new [] (r, h, e) = absurd (ground arith)
append-RevokedAt id t new (x ∷ rows) (r, h, e) = elim (Bool-cases (token_is id x)) [
  | inr n ↦
      let (r', h', e') = append-RevokedAt id t new rows (r, ground arith, e) in
      (r', ground arith, e')
  | inl n ↦ (x, ground arith, ground arith)
]

insert-RevokedAt :
    (is_user : String → Bool) (new : Token) (id : String) (t : ℕ) (rows : TokenTable)
    → RevokedAt id t rows
    → RevokedAt id t (insert_token is_user new rows).1
unfolding insert_token
insert-RevokedAt is_user new id t rows r =
    by (not (kind_given new.kind))
      (any (token_is new.id) rows || not (token_owner_known is_user new.owner_user_id))
  where
    by :
        (no_kind refused : Bool)
        → let a : Result InsertError Unit × TokenTable =
            if no_kind
            then (err token_kind_required, rows)
            else if refused
            then (err token_refused, rows)
            else (ok tt, rows ++ row_of_token new ∷ []) in
          RevokedAt id t a.1
    by true refused = r
    by false true = r
    by false false = append-RevokedAt id t (row_of_token new) rows r

reassign-RevokedAt :
    (is_user : String → Bool) (key : String) (owner : Option String) (id : String) (t : ℕ)
    (rows : TokenTable)
    → RevokedAt id t rows
    → RevokedAt id t (update_token_owner is_user key owner rows).1
unfolding update_token_owner
reassign-RevokedAt is_user key owner id t rows r =
    by (any (token_is key) rows && not (token_owner_known is_user owner))
  where
    by :
        (refused : Bool)
        → let a : Result StoreError Unit × TokenTable =
            if refused
            then (err constraint_failed, rows)
            else update_where (token_is key) (λ r. record r { owner_user_id = owner }) rows in
          RevokedAt id t a.1
    by true = r
    by false = update_where-RevokedAt id t _ _ (λ x. refl) (λ x h q. h) rows r

change-RevokedAt :
    (is_user : String → Bool) (c : TokenChange) (id : String) (t : ℕ) (rows : TokenTable)
    → RevokedAt id t rows
    → RevokedAt id t (token_change is_user c rows)
unfolding token_change
change-RevokedAt is_user (inserts new) id t rows r = insert-RevokedAt is_user new id t rows r
change-RevokedAt is_user (touches key now) id t rows r =
    set_where-RevokedAt id t _ _ (λ x. refl) (λ x h q. h) rows r
change-RevokedAt is_user (revokes key now) id t rows r =
    update_where-RevokedAt id t _ _ (λ x. refl) (λ x h q. absurd (ground arith)) rows r
change-RevokedAt is_user (revokes_owner owner now) id t rows r =
    set_where-RevokedAt id t _ _ (λ x. refl) (λ x h q. absurd (ground arith)) rows r
change-RevokedAt is_user (expires now cutoff) id t rows r =
    set_where-RevokedAt id t _ _ (λ x. refl) (λ x h q. absurd (ground arith)) rows r
change-RevokedAt is_user (reassigns key owner) id t rows r =
    reassign-RevokedAt is_user key owner id t rows r

-- A token that is revoked stays revoked, with the time of its revocation, through any later calls:
-- a second revocation, that of its owner's tokens and the idle sweep included.
pub changes-RevokedAt :
    (is_user : String → Bool) (cs : List TokenChange) (id : String) (t : ℕ) (rows : TokenTable)
    → RevokedAt id t rows
    → RevokedAt id t (token_changes is_user cs rows)
unfolding token_changes
changes-RevokedAt is_user [] id t rows r = r
changes-RevokedAt is_user (c ∷ cs) id t rows r =
    changes-RevokedAt is_user cs id t (token_change is_user c rows)
      (change-RevokedAt is_user c id t rows r)

abbrev pub swept : ℕ → ℕ → Option TokenRow → Option TokenRow
swept now cutoff none = none
swept now cutoff (some r) = some (
    if r.ephemeral && is_unrevoked r && ltb (last_seen r) cutoff
    then record r { revoked_at = some now }
    else r)

-- The idle sweep revokes a row exactly if it is ephemeral, not revoked yet, and was last used, or
-- if never used created, before the cutoff; it changes nothing else.
pub expire_exact :
    (now cutoff : ℕ) (id : String) (rows : TokenTable)
    → get_token id (expire_ephemeral_tokens_idle now cutoff rows).0
      ≡ swept now cutoff (get_token id rows)
unfolding expire_ephemeral_tokens_idle get_token
expire_exact now cutoff id [] = refl
expire_exact now cutoff id (x ∷ rows) = ground (arith, expire_exact now cutoff id rows)
