-- ===== src/Push/Manager/Workers.antt =====
-- internal/push/dispatcher.go: the live workers of a subscription, and a worker that has ended.
use hooks.Prelude.{
  ℕ, ◌+◌, ◌<◌, ◌≡◌, refl, sym, ap, subst, ◌∙◌, ◌≢◌, inl, inr, String, List, [], ◌∷◌, true, false,
  Option, none, some, arith, string_eq, nat_eq, Bool-cases, Option-cases, All,
}
use hooks.Store.Push.{PushSubscription, Table, get_push, is_active, list_push}
use hooks.Store.Push.Lookups.{find-has_id}
use hooks.Push.Manager.{
  Manager, new_manager, find_worker, without, set_at, ensure_worker, cancel_found, set_secret,
  resume, start_from, is_worker, ManagerCall, adds, rotates, pauses, removes, resumes, starts,
  stops, exits_worker, manage, manage_all, exit_worker,
}

-- A worker that is not cancelled is the one registered for its subscription.
abbrev pub AllRegistered : Manager → Type 0
AllRegistered m =
    (k : ℕ) → k < m.next → m.cancelled k ≡ false → find_worker (m.owner k) m.workers ≡ some k

find-without :
    (id other : String) (workers : List (String × ℕ))
    → id ≢ other
    → find_worker other (without id workers) ≡ find_worker other workers
unfolding find_worker
find-without id other [] d = refl
find-without id other ((i, k) ∷ workers) d = ground (arith, find-without id other workers d)

find-is_worker :
    (id : String) (k : ℕ) (workers : List (String × ℕ))
    → find_worker id workers ≡ some k
    → is_worker workers k ≡ true
unfolding find_worker
find-is_worker id k [] h = absurd (ground arith)
find-is_worker id k ((i, j) ∷ workers) h = ground (arith, find-is_worker id k workers)

ensure-AllRegistered :
    (id : String) (m : Manager) → AllRegistered m → AllRegistered (ensure_worker id m)
unfolding ensure_worker find_worker
ensure-AllRegistered id m r = elim (Option-cases (find_worker id m.workers)) [
  | inr (k, e) ↦ subst AllRegistered (sym (known k e)) r
  | inl e ↦ subst AllRegistered (sym (unknown e)) (λ k h c. ground (arith, r k))
]
  where
    known : (k : ℕ) → find_worker id m.workers ≡ some k → ensure_worker id m ≡ m
    known k e = ground arith

    unknown :
        find_worker id m.workers ≡ none
        → ensure_worker id m ≡ record m {
          workers = (id, m.next) ∷ m.workers;
          owner = set_at m.owner m.next id;
          cancelled = set_at m.cancelled m.next false;
          exited = set_at m.exited m.next false;
          next = m.next + 1;
        }
    unknown e = ground arith

-- Taking an id out and cancelling its worker.
drop-AllRegistered :
    (id : String) (m : Manager) (secrets : List (String × String))
    → AllRegistered m
    → AllRegistered (
        cancel_found
          (find_worker id m.workers)
          (record m { workers = without id m.workers; secrets = secrets }))
drop-AllRegistered id m secrets r = by (find_worker id m.workers) refl
  where
    by :
        (found : Option ℕ)
        → find_worker id m.workers ≡ found
        → AllRegistered
            (cancel_found found (record m { workers = without id m.workers; secrets = secrets }))
    by none e k h c = find-without id (m.owner k) m.workers (λ q. ground (arith, r k h c)) ∙ r k h c
    by (some j) e k h c =
        let live : m.cancelled k ≡ false = ground arith in
        find-without id (m.owner k) m.workers (λ q. ground (arith, r k h live)) ∙ r k h live

start_from-AllRegistered :
    (rows : Table) (m : Manager) → AllRegistered m → AllRegistered (start_from rows m)
unfolding start_from
start_from-AllRegistered [] m r = r
start_from-AllRegistered (sub ∷ rows) m r = elim (Bool-cases (is_active sub)) [
  | inl e ↦
      subst AllRegistered (sym (taken e))
        (start_from-AllRegistered rows (ensure_worker sub.id m) (ensure-AllRegistered sub.id m r))
  | inr e ↦ subst AllRegistered (sym (passed e)) (start_from-AllRegistered rows m r)
]
  where
    taken :
        is_active sub ≡ true → start_from (sub ∷ rows) m ≡ start_from rows (ensure_worker sub.id m)
    taken e = rw e refl

    passed : is_active sub ≡ false → start_from (sub ∷ rows) m ≡ start_from rows m
    passed e = rw e refl

resume-AllRegistered :
    (id : String) (rows : Table) (m : Manager) → AllRegistered m → AllRegistered (resume id rows m)
unfolding resume
resume-AllRegistered id rows m r = elim (Option-cases (get_push id rows)) [
  | inl e ↦ subst AllRegistered (sym (missing e)) r
  | inr (sub, e) ↦ subst AllRegistered (sym (there sub e)) (ensure-AllRegistered sub.id m r)
]
  where
    missing : get_push id rows ≡ none → resume id rows m ≡ m
    missing e = rw (e, resume) refl

    there :
        (sub : PushSubscription)
        → get_push id rows ≡ some sub
        → resume id rows m ≡ ensure_worker sub.id m
    there sub e = rw (e, resume) refl

manage-AllRegistered :
    (c : ManagerCall) (m : Manager) → AllRegistered m → AllRegistered (manage c m)
unfolding manage
manage-AllRegistered (adds id secret) m r = ensure-AllRegistered id (set_secret id secret m) r
manage-AllRegistered (rotates id secret) m r = r
manage-AllRegistered (pauses id) m r = drop-AllRegistered id m m.secrets r
manage-AllRegistered (removes id) m r = drop-AllRegistered id m (without id m.secrets) r
manage-AllRegistered (resumes id rows) m r = resume-AllRegistered id rows m r
manage-AllRegistered (starts rows) m r = start_from-AllRegistered (list_push true rows) m r
manage-AllRegistered stops m r =
    λ k h c. absurd (ground (arith, r k h, find-is_worker (m.owner k) k m.workers))
manage-AllRegistered (exits_worker k) m r = r

all-AllRegistered :
    (cs : List ManagerCall) (m : Manager) → AllRegistered m → AllRegistered (manage_all cs m)
unfolding manage_all
all-AllRegistered [] m r = r
all-AllRegistered (c ∷ cs) m r = all-AllRegistered cs (manage c m) (manage-AllRegistered c m r)

new-AllRegistered : AllRegistered new_manager
unfolding new_manager
new-AllRegistered k h c = absurd (omega (arith, h))

-- After any calls on a new manager, two workers of one subscription that were both started and not
-- cancelled are the same worker.
pub one_live_worker :
    (cs : List ManagerCall) (k j : ℕ)
    → let m = manage_all cs new_manager in
      k < m.next
      → j < m.next
      → m.cancelled k ≡ false
      → m.cancelled j ≡ false
      → m.owner k ≡ m.owner j
      → k ≡ j
one_live_worker cs k j hk hj ck cj same =
    let r = all-AllRegistered cs new_manager new-AllRegistered in
    ground (arith, r k hk ck, r j hj cj)

-- Neither `Pause` nor `Remove` for the subscription, nor `Stop`.
abbrev pub Keeps : String → ManagerCall → Type 0
Keeps id (adds other secret) = Unit {0}
Keeps id (rotates other secret) = Unit {0}
Keeps id (pauses other) = other ≢ id
Keeps id (removes other) = other ≢ id
Keeps id (resumes other rows) = Unit {0}
Keeps id (starts rows) = Unit {0}
Keeps id stops = ⊥
Keeps id (exits_worker k) = Unit {0}

-- The worker is registered for the subscription and its `run` has returned.
abbrev Gone : String → ℕ → Manager → Type 0
Gone id k m = (find_worker id m.workers ≡ some k) × (m.exited k ≡ true) × (k < m.next)

ensure-Gone :
    (id other : String) (k : ℕ) (m : Manager) → Gone id k m → Gone id k (ensure_worker other m)
unfolding ensure_worker find_worker
ensure-Gone id other k m (f, x, l) = elim (Option-cases (find_worker other m.workers)) [
  | inr (j, e) ↦ (ground (arith, e, f), ground (arith, e, x), ground (arith, e, l))
  | inl e ↦ (ground (arith, e, f), ground (arith, e, x, l), ground (arith, e, l))
]

drop-Gone :
    (id other : String) (k : ℕ) (m : Manager) (secrets : List (String × String))
    → other ≢ id
    → Gone id k m
    → Gone id k (
        cancel_found
          (find_worker other m.workers)
          (record m { workers = without other m.workers; secrets = secrets }))
drop-Gone id other k m secrets n g = by (find_worker other m.workers)
  where
    by :
        (found : Option ℕ)
        → Gone id k
            (cancel_found found (record m { workers = without other m.workers; secrets = secrets }))
    by none = (find-without other id m.workers n ∙ g.0, g.1, g.2)
    by (some j) = (find-without other id m.workers n ∙ g.0, g.1, g.2)

start_from-Gone :
    (id : String) (k : ℕ) (rows : Table) (m : Manager) → Gone id k m → Gone id k (start_from rows m)
unfolding start_from
start_from-Gone id k [] m g = g
start_from-Gone id k (sub ∷ rows) m g = elim (Bool-cases (is_active sub)) [
  | inl e ↦ rw e (start_from-Gone id k rows (ensure_worker sub.id m) (ensure-Gone id sub.id k m g))
  | inr e ↦ rw e (start_from-Gone id k rows m g)
]

resume-Gone :
    (id other : String) (k : ℕ) (rows : Table) (m : Manager)
    → Gone id k m
    → Gone id k (resume other rows m)
unfolding resume
resume-Gone id other k rows m g = elim (Option-cases (get_push other rows)) [
  | inl e ↦ rw (e, resume) g
  | inr (sub, e) ↦ rw (e, resume) (ensure-Gone id sub.id k m g)
]

manage-Gone :
    (id : String) (k : ℕ) (c : ManagerCall) (m : Manager)
    → Keeps id c
    → Gone id k m
    → Gone id k (manage c m)
unfolding manage
manage-Gone id k (adds other secret) m n g = ensure-Gone id other k (set_secret other secret m) g
manage-Gone id k (rotates other secret) m n g = g
manage-Gone id k (pauses other) m n g = drop-Gone id other k m m.secrets n g
manage-Gone id k (removes other) m n g = drop-Gone id other k m (without other m.secrets) n g
manage-Gone id k (resumes other rows) m n g = resume-Gone id other k rows m g
manage-Gone id k (starts rows) m n g = start_from-Gone id k (list_push true rows) m g
manage-Gone id k stops m n g = absurd n
manage-Gone id k (exits_worker j) m n (f, x, l) = (f, ground (arith, x), l)

manage_all-Gone :
    (id : String) (k : ℕ) (cs : List ManagerCall) (m : Manager)
    → All (Keeps id) cs
    → Gone id k m
    → Gone id k (manage_all cs m)
unfolding manage_all
manage_all-Gone id k [] m n g = g
manage_all-Gone id k (c ∷ cs) m n g =
    manage_all-Gone id k cs (manage c m) n.1 (manage-Gone id k c m n.0 g)

-- When a worker that was started and not cancelled has ended by itself, as it does when it reads that
-- its row is paused, it stays registered through any later calls but `Pause` and `Remove` for its
-- subscription and `Stop`: after them `Resume` changes nothing, whatever the table, and every worker
-- of the subscription that was started and not cancelled has ended.
pub resume_exited :
    (before after : List ManagerCall) (id : String) (k : ℕ)
    → let m = manage_all before new_manager in
      let later = manage_all after (exit_worker k m) in
      k < m.next
      → m.cancelled k ≡ false
      → m.owner k ≡ id
      → All (Keeps id) after
      → (find_worker id later.workers ≡ some k)
        × ((rows : Table) (sub : PushSubscription)
            → get_push id rows ≡ some sub
            → resume id rows later ≡ later)
        × ((j : ℕ)
            → j < later.next
            → later.cancelled j ≡ false
            → later.owner j ≡ id
            → later.exited j ≡ true)
unfolding resume ensure_worker get_push exit_worker
resume_exited before after id k started live owns kept =
    let m : Manager = manage_all before new_manager in
    let r : AllRegistered m = all-AllRegistered before new_manager new-AllRegistered in
    let found : find_worker id m.workers ≡ some k =
      ap (λ o. find_worker o m.workers) (sym owns) ∙ r k started live in
    let (f, x, l) =
      manage_all-Gone id k after (exit_worker k m) kept (found, ground arith, started) in
    let q = all-AllRegistered after (exit_worker k m) r in
    (
      f,
      (λ rows sub there.
          let same = find-has_id id rows sub there in ground (arith, f, there, same)),
      λ j h c o. ground (arith, q j h c, f, x, o),
    )
