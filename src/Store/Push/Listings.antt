-- ===== src/Store/Push/Listings.antt =====
-- The listings of push subscriptions in internal/store/sqlite.go.
use hooks.Prelude.{
  ℕ, ◌≤◌, ◌≡◌, ◌↔◌, inl, inr, String, [], ◌∷◌, Bool, true, false, ◌&&◌, ◌||◌, none, some, arith,
  leb, ◌==◌, keep, All, All-imp, Has, leb→le, Has-keep_iff, Bool-cases, string_eq, nat_eq,
}
use hooks.Store.Push.{
  PushSubscription, Table, is_active, owned_by, is_system, insert_by_created, order_by_created,
  list_push_by_source, list_push_by_owner, list_system_push,
}

abbrev pub IsOrdered : Table → Type 0
IsOrdered [] = Unit {0}
IsOrdered (sub ∷ rows) = All (λ x. sub.created_at ≤ x.created_at) rows × IsOrdered rows

Has-insert :
    (sub x : PushSubscription) (rows : Table)
    → Has x (insert_by_created sub rows) ↔ Has x (sub ∷ rows)
unfolding insert_by_created
Has-insert sub x [] = ((λ h. h), λ h. h)
Has-insert sub x (y ∷ rows) = elim (Bool-cases (leb sub.created_at y.created_at)) [
  | inl e ↦ rw (e, insert_by_created) ((λ h. h), λ h. h)
  | inr e ↦ rw (e, insert_by_created) (into (Has-insert sub x rows), out (Has-insert sub x rows))
]
  where
    into :
        (Has x (insert_by_created sub rows) ↔ Has x (sub ∷ rows))
        → Has x (y ∷ insert_by_created sub rows)
        → Has x (sub ∷ y ∷ rows)
    into ih (inl p) = inr (inl p)
    into ih (inr h) = elim (ih.0 h) [ inl p ↦ inl p | inr k ↦ inr (inr k) ]

    out :
        (Has x (insert_by_created sub rows) ↔ Has x (sub ∷ rows))
        → Has x (sub ∷ y ∷ rows)
        → Has x (y ∷ insert_by_created sub rows)
    out ih (inl p) = inr (ih.1 (inl p))
    out ih (inr (inl p)) = inl p
    out ih (inr (inr h)) = inr (ih.1 (inr h))

Has-order : (x : PushSubscription) (rows : Table) → Has x (order_by_created rows) ↔ Has x rows
unfolding order_by_created
Has-order x [] = ((λ h. h), λ h. h)
Has-order x (y ∷ rows) = (
  (λ h. elim ((Has-insert y x (order_by_created rows)).0 h) [
    | inl p ↦ inl p
    | inr k ↦ inr ((Has-order x rows).0 k)
  ]),
  λ h.
      (Has-insert y x (order_by_created rows)).1
        (elim h [ inl p ↦ inl p | inr k ↦ inr ((Has-order x rows).1 k) ]),
)

All-insert :
    (n : ℕ) (sub : PushSubscription) (rows : Table)
    → n ≤ sub.created_at
    → All (λ x. n ≤ x.created_at) rows
    → All (λ x. n ≤ x.created_at) (insert_by_created sub rows)
unfolding insert_by_created
All-insert n sub [] h a = (h, tt)
All-insert n sub (y ∷ rows) h a = elim (Bool-cases (leb sub.created_at y.created_at)) [
  | inl e ↦ rw (e, insert_by_created) (h, a)
  | inr e ↦ rw (e, insert_by_created) (a.0, All-insert n sub rows h a.1)
]

insert-IsOrdered :
    (sub : PushSubscription) (rows : Table)
    → IsOrdered rows
    → IsOrdered (insert_by_created sub rows)
unfolding insert_by_created
insert-IsOrdered sub [] o = (tt, tt)
insert-IsOrdered sub (y ∷ rows) o = elim (Bool-cases (leb sub.created_at y.created_at)) [
  | inl e ↦
      let le : sub.created_at ≤ y.created_at = leb→le sub.created_at y.created_at e in
      rw (e, insert_by_created) ((le, All-imp rows (λ x h. omega (arith, le, h)) o.0), o)
  | inr e ↦
      rw (e, insert_by_created)
        (All-insert y.created_at sub rows (ground arith) o.0, insert-IsOrdered sub rows o.1)
]

order-IsOrdered : (rows : Table) → IsOrdered (order_by_created rows)
unfolding order_by_created
order-IsOrdered [] = tt
order-IsOrdered (sub ∷ rows) = insert-IsOrdered sub (order_by_created rows) (order-IsOrdered rows)

listed :
    (p : PushSubscription → Bool) (x : PushSubscription) (rows : Table)
    → Has x (order_by_created (keep p rows)) ↔ (Has x rows × (p x ≡ true))
listed p x rows = (
  (λ h. (Has-keep_iff p rows).0 ((Has-order x (keep p rows)).0 h)),
  λ h. (Has-order x (keep p rows)).1 ((Has-keep_iff p rows).1 h),
)

-- The listing of a source holds exactly the rows of that source, without the paused ones if they
-- are not asked for; that of an owner exactly the rows of that owner; that of the system exactly the
-- rows without an owner. Each is ordered by the time of creation.
pub list_push_exact :
    (rows : Table) (key : String) (include_paused : Bool)
    → ((x : PushSubscription)
        → (Has x (list_push_by_source key include_paused rows)
            ↔ (Has x rows × (x.source ≡ key) × (include_paused ≡ false → x.paused_at ≡ none)))
          × (Has x (list_push_by_owner key include_paused rows) ↔ (
              Has x rows
              × (x.owner_user_id ≡ some key)
              × (include_paused ≡ false → x.paused_at ≡ none)))
          × (Has x (list_system_push include_paused rows) ↔ (
              Has x rows
              × (x.owner_user_id ≡ none)
              × (include_paused ≡ false → x.paused_at ≡ none))))
      × IsOrdered (list_push_by_source key include_paused rows)
      × IsOrdered (list_push_by_owner key include_paused rows)
      × IsOrdered (list_system_push include_paused rows)
unfolding list_push_by_source list_push_by_owner list_system_push
list_push_exact rows key include_paused = (
  (λ x. (
    (
      (λ h. let (k, q) = (listed _ x rows).0 h in (k, ground arith, λ e. ground arith)),
      λ (k, q, a). (listed _ x rows).1 (k, ground arith),
    ),
    (
      (λ h. let (k, q) = (listed _ x rows).0 h in (k, ground arith, λ e. ground arith)),
      λ (k, q, a). (listed _ x rows).1 (k, ground arith),
    ),
    (
      (λ h. let (k, q) = (listed _ x rows).0 h in (k, ground arith, λ e. ground arith)),
      λ (k, q, a). (listed _ x rows).1 (k, ground arith),
    ),
  )),
  order-IsOrdered (keep (λ s. s.source == key && (include_paused || is_active s)) rows),
  order-IsOrdered (keep (λ s. owned_by key s && (include_paused || is_active s)) rows),
  order-IsOrdered (keep (λ s. is_system s && (include_paused || is_active s)) rows),
)
