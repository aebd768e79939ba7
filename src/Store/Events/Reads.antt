-- ===== src/Store/Events/Reads.antt =====
-- `SQLite.ReadSince` of internal/store/sqlite.go: its pages over a log.
use hooks.Prelude.{
  ℕ, zero, suc, ◌≤◌, ◌<◌, ◌≡◌, refl, ap, sym, subst, ◌∙◌, inl, inr, String, List, [], ◌∷◌, ◌++◌,
  Bool, true, arith, ◌==◌, if◌then◌else◌, keep, All, All-imp, take, drop, take-append-drop,
  string_eq, nat_eq, Bool-cases, length,
}
use hooks.Store.Events.{Event, read_since, order_by_sequence, is_after}
use hooks.Store.Events.Sequence.{IsLog}

-- The numbers rise, from above `cursor`.
abbrev pub IsRising : ℕ → List Event → Type 0
IsRising cursor [] = Unit {0}
IsRising cursor (e ∷ rows) = (cursor < e.sequence) × IsRising e.sequence rows

order_by_rising :
    (cursor : ℕ) (rows : List Event) → IsRising cursor rows → order_by_sequence rows ≡ rows
unfolding order_by_sequence
order_by_rising cursor [] h = refl
order_by_rising cursor (e ∷ []) h = refl
order_by_rising cursor (e ∷ x ∷ rows) h =
    rw (order_by_rising e.sequence (x ∷ rows) h.1) (ground arith)

keep-IsRising :
    (source : String) (p : Event → Bool) (cursor : ℕ) (rows : List Event)
    → ((e : Event) → p e ≡ true → e.source ≡ source)
    → All (λ e. p e ≡ true → cursor < e.sequence) rows
    → IsLog rows
    → IsRising cursor (keep p rows)
keep-IsRising source p cursor [] at h l = tt
keep-IsRising source p cursor (e ∷ rows) at h l = elim (Bool-cases (p e)) [
  | inr q ↦ rw q (keep-IsRising source p cursor rows at h.1 l.2)
  | inl q ↦ rw q (
    h.0 q,
    keep-IsRising source p e.sequence rows at
        (All-imp rows (λ x f r. f (at x r ∙ sym (at e q))) l.0) l.2,
  )
]

after_true :
    (source : String) (cursor : ℕ) (e : Event) → is_after source cursor e ≡ true → e.source ≡ source
after_true source cursor e h = ground arith

All-after :
    (source : String) (cursor : ℕ) (rows : List Event)
    → All (λ e. is_after source cursor e ≡ true → cursor < e.sequence) rows
All-after source cursor [] = tt
All-after source cursor (e ∷ rows) = ((λ h. ground arith), All-after source cursor rows)

-- The events of a source above a cursor, in the order of the log.
abbrev pub pending : String → ℕ → List Event → List Event
pending source cursor = keep (is_after source cursor)

pub pending-IsRising :
    (source : String) (cursor : ℕ) (rows : List Event)
    → IsLog rows
    → IsRising cursor (pending source cursor rows)
pending-IsRising source cursor rows l =
    keep-IsRising source (is_after source cursor) cursor rows (after_true source cursor)
      (All-after source cursor rows) l

abbrev pub page_size : ℕ → ℕ
page_size limit = if limit == 0 then 1000 else limit

pub page_size_pos : (limit : ℕ) → (m : ℕ) × (page_size limit ≡ suc m)
page_size_pos zero = (999, ground arith)
page_size_pos (suc m) = (m, ground arith)

pub read_since_lem :
    (source : String) (cursor limit : ℕ) (rows : List Event)
    → IsLog rows
    → read_since source cursor limit rows ≡ take (page_size limit) (pending source cursor rows)
unfolding read_since
read_since_lem source cursor limit rows l =
    rw (order_by_rising cursor (pending source cursor rows) (pending-IsRising source cursor rows l))

-- The cursor after a page: the number of its last event.
abbrev pub last_sequence : ℕ → List Event → ℕ
last_sequence cursor [] = cursor
last_sequence cursor (e ∷ es) = last_sequence e.sequence es

pub take-IsRising :
    (n cursor : ℕ) (rows : List Event) → IsRising cursor rows → IsRising cursor (take n rows)
take-IsRising zero cursor rows h = tt
take-IsRising (suc n) cursor [] h = tt
take-IsRising (suc n) cursor (e ∷ rows) h = (h.0, take-IsRising n e.sequence rows h.1)

last_sequence-le :
    (cursor n : ℕ) (rows : List Event)
    → IsRising cursor rows
    → cursor ≤ last_sequence cursor (take n rows)
last_sequence-le cursor zero rows h = omega arith
last_sequence-le cursor (suc n) [] h = omega arith
last_sequence-le cursor (suc n) (e ∷ rows) h =
    omega (arith, h.0, last_sequence-le e.sequence n rows h.1)

-- A higher cursor can be applied to the events above a lower one.
pending-pending :
    (source : String) (low high : ℕ) (rows : List Event)
    → low ≤ high
    → pending source high (pending source low rows) ≡ pending source high rows
pending-pending source low high [] h = refl
pending-pending source low high (e ∷ rows) h =
    ground (arith, pending-pending source low high rows h)

abbrev From : String → List Event → Type 0
From source = All (λ e. e.source ≡ source)

pending-From :
    (source : String) (cursor : ℕ) (rows : List Event) → From source (pending source cursor rows)
pending-From source cursor [] = tt
pending-From source cursor (e ∷ rows) = ground (arith, pending-From source cursor rows)

pending_self :
    (source : String) (low cursor : ℕ) (rows : List Event)
    → low ≤ cursor
    → From source rows
    → IsRising cursor rows
    → pending source low rows ≡ rows
pending_self source low cursor [] h f r = refl
pending_self source low cursor (e ∷ rows) h f r =
    ground (arith, pending_self source low e.sequence rows (omega (arith, r.0)) f.1 r.1)

pending-last_sequence :
    (source : String) (n cursor : ℕ) (rows : List Event)
    → From source rows
    → IsRising cursor rows
    → pending source (last_sequence cursor (take n rows)) rows ≡ drop n rows
pending-last_sequence source zero cursor rows f r =
    pending_self source cursor cursor rows (omega arith) f r
pending-last_sequence source (suc n) cursor [] f r = refl
pending-last_sequence source (suc n) cursor (e ∷ rows) f r = ground (
  arith,
  last_sequence-le e.sequence n rows r.1,
  pending-last_sequence source n e.sequence rows f.1 r.1,
)

-- `ReadSince` on a log returns events of the source in rising order, all above the cursor: as many
-- of those as the limit allows, or 1000 where it is 0, from the first on. The pages join up: what is
-- pending from the number of a page's last event on is what was pending before, less that page.
pub read_since_pages :
    (source : String) (cursor limit : ℕ) (rows : List Event)
    → IsLog rows
    → let page = read_since source cursor limit rows in
      IsRising cursor page
      × (page ++ pending source (last_sequence cursor page) rows ≡ pending source cursor rows)
      × (page ≡ take (if limit == 0 then 1000 else limit) (pending source cursor rows))
read_since_pages source cursor limit rows l =
    let all = pending source cursor rows in
    let n = page_size limit in
    let r = pending-IsRising source cursor rows l in
    let next : pending source (last_sequence cursor (take n all)) rows ≡ drop n all =
      sym (
        pending-pending source cursor (last_sequence cursor (take n all)) rows
          (last_sequence-le cursor n all r))
      ∙ pending-last_sequence source n cursor all (pending-From source cursor rows) r in
    rw (read_since_lem source cursor limit rows l)
      (take-IsRising n cursor all r, ap (◌++◌ (take n all)) next ∙ take-append-drop n all, refl)

IsRising-weaken :
    (low high : ℕ) (rows : List Event) → low ≤ high → IsRising high rows → IsRising low rows
IsRising-weaken low high [] h r = tt
IsRising-weaken low high (e ∷ rows) h r = (omega (arith, r.0), r.1)

pub IsRising-append :
    (cursor next : ℕ) (xs ys : List Event)
    → IsRising cursor xs
    → last_sequence cursor xs ≤ next
    → IsRising next ys
    → IsRising cursor (xs ++ ys)
IsRising-append cursor next [] ys r h s = IsRising-weaken cursor next ys h s
IsRising-append cursor next (x ∷ xs) ys r h s = (r.0, IsRising-append x.sequence next xs ys r.1 h s)

-- Nothing is pending from the last pending event on.
pub pending_done :
    (source : String) (cursor : ℕ) (rows : List Event)
    → IsLog rows
    → pending source (last_sequence cursor (pending source cursor rows)) rows ≡ []
pending_done source cursor rows l =
    let all = pending source cursor rows in
    let r = pending-IsRising source cursor rows l in
    let whole : take (length all) all ≡ all = take_all all in
    sym (
      pending-pending source cursor (last_sequence cursor all) rows (
        subst (λ xs. cursor ≤ last_sequence cursor xs) whole
          (last_sequence-le cursor (length all) all r)))
    ∙ subst (λ xs. pending source (last_sequence cursor xs) all ≡ []) whole
        (pending-last_sequence source (length all) cursor all (pending-From source cursor rows) r
          ∙ drop_all all)
  where
    take_all : (xs : List Event) → take (length xs) xs ≡ xs
    take_all [] = refl
    take_all (x ∷ xs) = ap (◌∷◌ x) (take_all xs)

    drop_all : (xs : List Event) → drop (length xs) xs ≡ []
    drop_all [] = refl
    drop_all (x ∷ xs) = drop_all xs

-- One event further, where it is the first that is pending.
pub pending_next :
    (source : String) (cursor : ℕ) (rows : List Event)
    → IsLog rows
    → (e : Event) (es : List Event) → pending source cursor rows ≡ e ∷ es
    → pending source e.sequence rows ≡ es
pending_next source cursor rows l e es h =
    let all = pending source cursor rows in
    let r = pending-IsRising source cursor rows l in
    let first : take 1 all ≡ e ∷ [] = ap (take 1) h in
    sym (
      pending-pending source cursor e.sequence rows
        (subst (λ xs. cursor ≤ last_sequence cursor xs) first (last_sequence-le cursor 1 all r)))
    ∙ subst (λ xs. pending source (last_sequence cursor xs) all ≡ drop 1 all) first
        (pending-last_sequence source 1 cursor all (pending-From source cursor rows) r)
    ∙ ap (drop 1) h
