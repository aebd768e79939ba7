-- ===== src/Store/Pairings/Transitions.antt =====
-- internal/store/device_pairings_store.go: how the status of a row moves.
use hooks.Prelude.{
  ◌≡◌, ◌⊎◌, refl, inl, inr, [], ◌∷◌, ◌++◌, Bool, true, false, not, arith, if◌then◌else◌, keep, any,
  All, All-imp, All-append, All-keep, Has, Has-keep_iff, Bool-cases, string_eq,
}
use hooks.Store.Rows.{set_where}
use hooks.Store.Pairings.{
  PairingStatus, pending, approved_unfetched, done, denied, expired, blank, unknown, DevicePairing,
  PairingDb, PairingTable, is_pending, is_unfetched, is_terminal, device_is, update_pairing,
}

-- The moves of a pairing: forward only.
pub data Moves : PairingStatus → PairingStatus → Type 0 where
  stay : (s : PairingStatus) → Moves s s
  to_approved : Moves pending approved_unfetched
  to_denied : Moves pending denied
  to_expired : Moves pending expired
  to_done : Moves approved_unfetched done

-- The row is new and pending, or was there and moved.
abbrev pub Comes : PairingTable → DevicePairing → Type 0
Comes old q =
    ((q.status ≡ pending) × (any (device_is q.device_code) old ≡ false))
    ⊎ ((p : DevicePairing) × Has p old × (p.device_code ≡ q.device_code) × Moves p.status q.status)

abbrev pub Forward : PairingTable → PairingTable → Type 0
Forward old new = All (Comes old) new

within :
    (old rows : PairingTable)
    → ((p : DevicePairing) → Has p rows → Has p old)
    → All (λ p. Has p old) rows
within old [] i = tt
within old (p ∷ rows) i = (i p (inl refl), within old rows (λ x m. i x (inr m)))

pub each_there : (rows : PairingTable) → All (λ p. Has p rows) rows
each_there rows = within rows rows (λ p m. m)

stays : (old : PairingTable) (p : DevicePairing) → Has p old → Comes old p
stays old p m = inr (p, m, refl, stay p.status)

pub Forward-same : (rows : PairingTable) → Forward rows rows
Forward-same rows = All-imp rows (stays rows) (each_there rows)

-- An update that keeps the device codes and moves what it meets.
Forward-set_where :
    (old rows : PairingTable) (p : DevicePairing → Bool) (f : DevicePairing → DevicePairing)
    → ((x : DevicePairing)
        → p x ≡ true
        → (x.device_code ≡ (f x).device_code) × Moves x.status (f x).status)
    → All (λ x. Has x old) rows
    → Forward old (set_where p f rows)
Forward-set_where old [] p f step h = tt
Forward-set_where old (x ∷ rows) p f step h = elim (Bool-cases (p x)) [
  | inl e ↦ rw e (inr (x, h.0, (step x e).0, (step x e).1), Forward-set_where old rows p f step h.1)
  | inr e ↦ rw e (stays old x h.0, Forward-set_where old rows p f step h.1)
]

-- The row is still there, moved or not, unless it was terminal.
abbrev pub Survives : PairingTable → DevicePairing → Type 0
Survives new p =
    ((q : DevicePairing) × Has q new × (p.device_code ≡ q.device_code) × Moves p.status q.status)
    ⊎ (is_terminal p.status ≡ true)

-- Every row comes from an old one or is new, and every old one survives.
abbrev pub Step : PairingTable → PairingTable → Type 0
Step old new = Forward old new × All (Survives new) old

Survives-more : (new : PairingTable) (x p : DevicePairing) → Survives new p → Survives (x ∷ new) p
Survives-more new x p (inl (q, m, c, s)) = inl (q, inr m, c, s)
Survives-more new x p (inr e) = inr e

Survives-set_where :
    (p : DevicePairing → Bool) (f : DevicePairing → DevicePairing) (rows : PairingTable)
    → ((x : DevicePairing)
        → p x ≡ true
        → (x.device_code ≡ (f x).device_code) × Moves x.status (f x).status)
    → All (Survives (set_where p f rows)) rows
Survives-set_where p f [] step = tt
Survives-set_where p f (x ∷ rows) step = (
  first (set_where p f rows),
  All-imp rows (Survives-more (set_where p f rows) (if p x then f x else x))
      (Survives-set_where p f rows step),
)
  where
    first : (rest : PairingTable) → Survives ((if p x then f x else x) ∷ rest) x
    first rest = elim (Bool-cases (p x)) [
      | inl e ↦ rw e (inl (f x, inl refl, (step x e).0, (step x e).1))
      | inr e ↦ rw e (inl (x, inl refl, refl, stay x.status))
    ]

here : (new : PairingTable) (p : DevicePairing) → Has p new → Survives new p
here new p m = inl (p, m, refl, stay p.status)

pub Step-same : (rows : PairingTable) → Step rows rows
Step-same rows = (Forward-same rows, All-imp rows (here rows) (each_there rows))

pub Step-set_where :
    (p : DevicePairing → Bool) (f : DevicePairing → DevicePairing) (rows : PairingTable)
    → ((x : DevicePairing)
        → p x ≡ true
        → (x.device_code ≡ (f x).device_code) × Moves x.status (f x).status)
    → Step rows (set_where p f rows)
Step-set_where p f rows step =
    (Forward-set_where rows rows p f step (each_there rows), Survives-set_where p f rows step)

pub Step-append :
    (rows : PairingTable) (x : DevicePairing) → Comes rows x → Step rows (rows ++ x ∷ [])
Step-append rows x h = (
  All-append (Comes rows) rows (x ∷ []) (Forward-same rows) (h, tt),
  All-imp rows (λ p m. here (rows ++ x ∷ []) p (Has-first p rows (x ∷ []) m)) (each_there rows),
)
  where
    Has-first : (p : DevicePairing) (xs ys : PairingTable) → Has p xs → Has p (xs ++ ys)
    Has-first p [] ys m = elim m [ ]
    Has-first p (z ∷ xs) ys (inl e) = inl e
    Has-first p (z ∷ xs) ys (inr m) = inr (Has-first p xs ys m)

-- A deletion of terminal rows.
pub Step-keep :
    (old : DevicePairing → Bool) (rows : PairingTable)
    → ((x : DevicePairing) → old x ≡ true → is_terminal x.status ≡ true)
    → Step rows (keep (λ p. not (old p)) rows)
Step-keep old rows terminal = (
  All-keep (Comes rows) (λ p. not (old p)) rows (Forward-same rows),
  All-imp rows kept (each_there rows),
)
  where
    kept : (p : DevicePairing) → Has p rows → Survives (keep (λ x. not (old x)) rows) p
    kept p m = elim (Bool-cases (old p)) [
      | inl e ↦ inr (terminal p e)
      | inr e ↦
          here (keep (λ x. not (old x)) rows) p
            ((Has-keep_iff (λ x. not (old x)) rows).1 (m, ground (arith, e)))
    ]

pub update_pairing-Step :
    (p : DevicePairing → Bool) (f : DevicePairing → DevicePairing) (db : PairingDb)
    → ((x : DevicePairing)
        → p x ≡ true
        → (x.device_code ≡ (f x).device_code) × Moves x.status (f x).status)
    → Step db.pairings (update_pairing p f db).1.pairings
update_pairing-Step p f db step = elim (Bool-cases (any p db.pairings)) [
  | inl e ↦ rw e (Step-set_where p f db.pairings step)
  | inr e ↦ rw e (Step-same db.pairings)
]

-- A pending row may move where the status of another leads.
pub from_pending : (s t : PairingStatus) → is_pending s ≡ true → Moves pending t → Moves s t
from_pending pending t e m = m
from_pending approved_unfetched t e m = absurd (cc)
from_pending done t e m = absurd (cc)
from_pending denied t e m = absurd (cc)
from_pending expired t e m = absurd (cc)
from_pending blank t e m = absurd (cc)
from_pending unknown t e m = absurd (cc)

pub from_unfetched : (s : PairingStatus) → is_unfetched s ≡ true → Moves s done
from_unfetched approved_unfetched e = to_done
from_unfetched pending e = absurd (cc)
from_unfetched done e = absurd (cc)
from_unfetched denied e = absurd (cc)
from_unfetched expired e = absurd (cc)
from_unfetched blank e = absurd (cc)
from_unfetched unknown e = absurd (cc)
