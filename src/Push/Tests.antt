-- ===== src/Push/Tests.antt =====
-- A worker over a log of two events, and the delay after three failures.
use hooks.Prelude.{
  string_eq, ne_of_beq, String-discrete, ℕ_discrete, ℕ, ◌+◌, ◌*◌, ◌^◌, ◌<◌, ◌≡◌, refl, min, String,
  pos, List, [], ◌∷◌, ◌++◌, true, false, Option, none, some, arith,
}
use hooks.Store.Events.{Event}
use hooks.Store.Events.Sequence.{IsLog}
use hooks.Store.Events.Reads.{pending}
use hooks.Store.Push.{Table, PushSubscription, get_push}
use hooks.Push.{Turn, Worker, run, backoff, backoff_base, default_backoff_cap, millisecond}
use hooks.Push.Manager.{
  Manager, ManagerCall, adds, pauses, exit_worker, manage_all, new_manager, find_worker, resume,
}
use hooks.Push.Manager.Workers.{one_live_worker, resume_exited}
use hooks.Push.Backoff.{backoff_doubles}
use hooks.Push.Attempts.{Sees, Reached}
use hooks.Push.Delivery.{run-Reached}
use hooks.Push.Progress.{IsGood, run_delivers}

abbrev lowest : ℕ → ℕ
lowest n = 0

backoff_doubles_example :
    (backoff_base (2 + 1) ≡ min default_backoff_cap (2 ^ 2 * (100 * millisecond)))
    × (backoff lowest (2 + 1) < min default_backoff_cap (2 ^ 2 * (100 * millisecond)))
    × (2 ^ min 2 29 * (100 * millisecond) < 2 ^ 63)
backoff_doubles_example = backoff_doubles lowest 2 (λ n h. h)

abbrev row : ℕ → Event
row sequence = record {
  source = "a";
  sequence = sequence;
  delivery_id = "x";
  provider_timestamp = pos 7;
  received_at = 10;
  headers = [];
  body = [];
  body_sha256 = "00";
}

abbrev two_rows : List Event
two_rows = row 1 ∷ row 2 ∷ []

two_rows-IsLog : IsLog two_rows
two_rows-IsLog = (((λ p. omega arith), tt), omega arith, (tt, omega arith, tt))

abbrev subscription : PushSubscription
subscription = record {
  id = "p";
  source = "a";
  target_url = "https://example.org";
  signing_secret_hash = "00";
  name = "n";
  cursor = 0;
  paused_at = none;
  created_at = 5;
  last_attempt_at = none;
  last_success_at = none;
  last_error = "";
  consecutive_failures = 0;
  owner_user_id = none;
}

abbrev worker : Worker
worker = record { rows = subscription ∷ []; warned = false; answers = []; delivered = [] }

abbrev answered : Option ℕ → List Event → Turn
answered status table = record {
  cancelled = false;
  get_fails = false;
  has_secret = true;
  table = some table;
  request_fails = false;
  status = status;
  write_fails = false;
  warn_get_fails = false;
  backoff_get_fails = false;
  now = 20;
  message = "target returned 500";
}

-- A failure over the first event alone, then a success over both.
abbrev turns : List Turn
turns = answered (some 500) (row 1 ∷ []) ∷ answered (some 204) two_rows ∷ []

worker_row : get_push "p" worker.rows ≡ some subscription
unfolding get_push String-discrete
worker_row = refl

abbrev https_target : String
https_target = "https://example.org"

run-Reached_example :
    Reached "p" https_target two_rows worker subscription
      (run "p" https_target lowest 0 turns worker)
run-Reached_example =
    run-Reached "p" https_target lowest 0 two_rows two_rows-IsLog turns worker subscription
      (sees_first, (sees_all, tt)) worker_row
  where
    sees_first : Sees two_rows (answered (some 500) (row 1 ∷ []))
    sees_first rows h = (row 2 ∷ [], ground arith)

    sees_all : Sees two_rows (answered (some 204) two_rows)
    sees_all rows h = ([], ground arith)

good : IsGood two_rows (answered (some 204) two_rows)
good = record {
  running = refl;
  got = refl;
  secret = refl;
  table = refl;
  built = refl;
  status = 204;
  answered = refl;
  success = refl;
  written = refl;
}

abbrev good_turns : List Turn
good_turns = answered (some 204) two_rows ∷ answered (some 204) two_rows ∷ []

run_delivers_example :
    let w' = run "p" https_target lowest 0 good_turns worker in
    (w'.delivered ≡ [] ++ pending "a" 0 two_rows)
    × (row : PushSubscription) × (get_push "p" w'.rows ≡ some row)
    × (pending "a" row.cursor two_rows ≡ [])
unfolding String-discrete
run_delivers_example =
    run_delivers "p" https_target lowest 0 two_rows two_rows-IsLog (ne_of_beq https_target "" refl)
      good_turns worker subscription (good, (good, tt)) worker_row refl (omega arith)

-- The row was paused in the table alone, the worker ended, and the row was added and resumed.
abbrev manager_calls : List ManagerCall
manager_calls = adds "p" "secret" ∷ []

abbrev later_calls : List ManagerCall
later_calls = pauses "q" ∷ adds "p" "other" ∷ []

abbrev managed : Manager
managed = manage_all later_calls (exit_worker 0 (manage_all manager_calls new_manager))

resume_exited_example :
    (find_worker "p" managed.workers ≡ some 0)
    × ((rows : Table) (sub : PushSubscription)
        → get_push "p" rows ≡ some sub
        → resume "p" rows managed ≡ managed)
    × ((j : ℕ)
        → j < managed.next
        → managed.cancelled j ≡ false
        → managed.owner j ≡ "p"
        → managed.exited j ≡ true)
unfolding manage_all new_manager find_worker String-discrete ℕ_discrete
resume_exited_example =
    resume_exited manager_calls later_calls "p" 0 (omega arith) refl refl
      (ne_of_beq "q" "p" refl, (tt, tt))

-- Paused and added again: the second worker is live.
abbrev readded_calls : List ManagerCall
readded_calls = adds "p" "secret" ∷ pauses "p" ∷ adds "p" "secret" ∷ []

one_live_worker_example : ◌≡◌ {A = ℕ} 1 1
unfolding manage_all new_manager find_worker String-discrete ℕ_discrete
one_live_worker_example =
    one_live_worker readded_calls 1 1 (omega arith) (omega arith) refl refl refl
