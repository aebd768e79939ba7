-- ===== src/Push/Manager.antt =====
-- internal/push/dispatcher.go: the registry of workers. A worker has a number; `owner` is the id of
-- its subscription, `cancelled` says that its context was cancelled, and `exited` that its `run`
-- has returned, which it also does by itself when it reads that its row is paused. The mutex makes
-- every method one step. `Pause` and `Remove` cancel the worker right after the unlock, which the
-- model takes as part of their step; `Stop` also waits, which changes nothing here.
pub mod Workers
use hooks.Prelude.{
  ℕ, ◌+◌, String, List, [], ◌∷◌, Bool, true, false, not, ◌&&◌, Option, none, some, ◌==◌,
  if◌then◌else◌, keep, any, string_eq, nat_eq,
}
use hooks.Store.Push.{PushSubscription, Table, get_push, is_active, list_push}

pub record Manager : Type 0 where
  pub workers : List (String × ℕ)
  pub secrets : List (String × String)
  pub owner : ℕ → String
  pub cancelled : ℕ → Bool
  pub exited : ℕ → Bool
  pub next : ℕ

-- `New`
unfoldable pub new_manager : Manager
new_manager = record {
  workers = [];
  secrets = [];
  owner = λ k. "";
  cancelled = λ k. false;
  exited = λ k. false;
  next = 0;
}

unfoldable pub find_worker : String → List (String × ℕ) → Option ℕ
find_worker id [] = none
find_worker id ((i, k) ∷ workers) =
    let rest = find_worker id workers in if i == id then some k else rest

abbrev pub without {ℓ} : {A : Type ℓ} → String → List (String × A) → List (String × A)
without id [] = []
without id ((i, a) ∷ xs) = let rest = without id xs in if i == id then rest else (i, a) ∷ rest

abbrev pub set_at {ℓ} : {A : Type ℓ} → (ℕ → A) → ℕ → A → ℕ → A
set_at f k a j = if j == k then a else f j

-- `ensureWorker`: a registered worker stays, whether or not it still runs.
unfoldable pub ensure_worker : String → Manager → Manager
unfolding find_worker
ensure_worker id m = elim (find_worker id m.workers) [
  | some _ ↦ m
  | none ↦ record m {
    workers = (id, m.next) ∷ m.workers;
    owner = set_at m.owner m.next id;
    cancelled = set_at m.cancelled m.next false;
    exited = set_at m.exited m.next false;
    next = m.next + 1;
  }
]

-- `w.cancel()`, where there is a worker.
abbrev pub cancel_found : Option ℕ → Manager → Manager
cancel_found none m = m
cancel_found (some k) m = record m { cancelled = set_at m.cancelled k true }

unfoldable pub set_secret : String → String → Manager → Manager
set_secret id secret m = record m { secrets = (id, secret) ∷ without id m.secrets }

-- `Add`
unfoldable pub add : String → String → Manager → Manager
unfolding set_secret ensure_worker
add id secret m = ensure_worker id (set_secret id secret m)

-- `Pause`
unfoldable pub pause : String → Manager → Manager
unfolding find_worker
pause id m = cancel_found (find_worker id m.workers) (record m { workers = without id m.workers })

-- `Resume`; the row is read from the table.
unfoldable pub resume : String → Table → Manager → Manager
unfolding ensure_worker get_push
resume id rows m = elim (get_push id rows) [ none ↦ m | some sub ↦ ensure_worker sub.id m ]

-- `Remove`
unfoldable pub remove : String → Manager → Manager
unfolding find_worker
remove id m =
    cancel_found (find_worker id m.workers)
      (record m { workers = without id m.workers; secrets = without id m.secrets })

-- The loop of `Start`, over the rows that `List` returns.
unfoldable pub start_from : Table → Manager → Manager
unfolding ensure_worker
start_from [] m = m
start_from (sub ∷ rows) m =
    if is_active sub then start_from rows (ensure_worker sub.id m) else start_from rows m

unfoldable pub start : Table → Manager → Manager
unfolding start_from list_push
start rows m = start_from (list_push true rows) m

abbrev pub is_worker : List (String × ℕ) → ℕ → Bool
is_worker workers k = any (λ w. w.1 == k) workers

-- `Stop`
unfoldable pub stop : Manager → Manager
stop m = record m {
  workers = [];
  cancelled = λ k. if is_worker m.workers k then true else m.cancelled k;
}

-- The return of a worker's `run`.
unfoldable pub exit_worker : ℕ → Manager → Manager
exit_worker k m = record m { exited = set_at m.exited k true }

pub data ManagerCall : Type 0 where
  adds : String → String → ManagerCall
  rotates : String → String → ManagerCall
  pauses removes : String → ManagerCall
  resumes : String → Table → ManagerCall
  starts : Table → ManagerCall
  stops : ManagerCall
  exits_worker : ℕ → ManagerCall

unfoldable pub manage : ManagerCall → Manager → Manager
unfolding add set_secret pause remove resume start stop exit_worker
manage (adds id secret) m = add id secret m
manage (rotates id secret) m = set_secret id secret m
manage (pauses id) m = pause id m
manage (removes id) m = remove id m
manage (resumes id rows) m = resume id rows m
manage (starts rows) m = start rows m
manage stops m = stop m
manage (exits_worker k) m = exit_worker k m

-- The calls in the order in which they take the mutex.
unfoldable pub manage_all : List ManagerCall → Manager → Manager
unfolding manage
manage_all [] m = m
manage_all (c ∷ cs) m = manage_all cs (manage c m)
