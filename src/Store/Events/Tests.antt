-- ===== src/Store/Events/Tests.antt =====
-- The event store at concrete deliveries.
use hooks.Prelude.{
  take, ne_of_beq, String-discrete, ℕ_discrete, ℕ, ◌+◌, ◌≤◌, ◌↔◌, Has, ◌≡◌, refl, ◌≢◌, String, pos,
  List, [], ◌∷◌, ◌++◌, arith, some, err, length, string_eq, nat_eq,
}
use hooks.Store.Events.{
  Event, AppendInput, append, duplicate, prune, prune_all, latest_sequence, read_since, get,
  new_event, check_event_duplicate, insert_event, latest_event_sequence,
}
use hooks.Store.Events.Sequence.{IsLog, append-IsLog, append_gapless}
use hooks.Store.Events.Dedupe.{append_duplicate_iff, prune_exact, append_prune_reuses}
use hooks.Store.Events.Reads.{IsRising, pending, last_sequence, read_since_pages}

abbrev digest : List ℕ → String
digest body = "00"

abbrev delivery : String → String → AppendInput
delivery source id = record {
  source = source;
  delivery_id = id;
  provider_timestamp = pos 7;
  headers = [];
  body = 1 ∷ 2 ∷ [];
}

abbrev row : String → ℕ → String → ℕ → Event
row source sequence id received_at = record {
  source = source;
  sequence = sequence;
  delivery_id = id;
  provider_timestamp = pos 7;
  received_at = received_at;
  headers = [];
  body = 1 ∷ 2 ∷ [];
  body_sha256 = "00";
}

abbrev two_rows : List Event
two_rows = row "a" 1 "x" 10 ∷ row "a" 2 "y" 20 ∷ []

two_rows-IsLog : IsLog two_rows
two_rows-IsLog = (((λ p. omega arith), tt), omega arith, (tt, omega arith, tt))

append-IsLog_example : IsLog (append digest 5 30 (delivery "a" "z") two_rows).1
append-IsLog_example = append-IsLog digest 5 30 (delivery "a" "z") two_rows two_rows-IsLog

append_gapless_example :
    ((append digest 5 30 (delivery "a" "z") two_rows).1 ≡ two_rows ++ row "a" 3 "z" 30 ∷ [])
    × ((row "a" 3 "z" 30).sequence ≡ latest_sequence "a" two_rows + 1)
    × (latest_sequence "a" (append digest 5 30 (delivery "a" "z") two_rows).1 ≡ 3)
    × ((other : String)
        → "a" ≢ other
        → latest_sequence other (append digest 5 30 (delivery "a" "z") two_rows).1
          ≡ latest_sequence other two_rows)
unfolding append new_event latest_sequence String-discrete ℕ_discrete check_event_duplicate
    insert_event
append_gapless_example =
    append_gapless digest 5 30 (delivery "a" "z") two_rows (row "a" 3 "z" 30) refl

append_duplicate_iff_example :
    ((append digest 15 30 (delivery "a" "y") two_rows).0 ≡ err duplicate) ↔ (
      (e : Event) × Has e two_rows
      × ((e.source ≡ "a") × (e.delivery_id ≡ "y") × (30 ≤ e.received_at + 15)))
unfolding String-discrete
append_duplicate_iff_example =
    append_duplicate_iff digest 15 30 (delivery "a" "y") two_rows (ne_of_beq "a" "" refl)
      (ne_of_beq "y" "" refl)

prune_exact_example :
    ((e : Event)
      → Has e (prune "a" 15 two_rows).0 ↔ (Has e two_rows × (e.source ≡ "a" → 15 ≤ e.received_at)))
    × (length (prune "a" 15 two_rows).0 + (prune "a" 15 two_rows).1 ≡ length two_rows)
prune_exact_example = prune_exact "a" 15 two_rows

append_prune_reuses_example :
    ((row "a" 1 "z" 30).sequence ≡ 1)
    × (read_since "a" 2 0 (append digest 5 30 (delivery "a" "z") (prune "a" 25 two_rows).0).1 ≡ [])
unfolding append new_event prune String-discrete ℕ_discrete check_event_duplicate insert_event
    latest_event_sequence
append_prune_reuses_example =
    append_prune_reuses digest 5 30 25 2 0 (delivery "a" "z") two_rows (row "a" 1 "z" 30)
      ((λ p. omega arith), ((λ p. omega arith), tt)) refl (omega arith)

read_since_pages_example :
    let page = read_since "a" 0 1 two_rows in
    IsRising 0 page
    × (page ++ pending "a" (last_sequence 0 page) two_rows ≡ pending "a" 0 two_rows)
    × (page ≡ take 1 (pending "a" 0 two_rows))
unfolding ℕ_discrete
read_since_pages_example = read_since_pages "a" 0 1 two_rows two_rows-IsLog

-- `Get` and `PruneAll` on the two rows
get_second : get "a" 2 two_rows ≡ some (row "a" 2 "y" 20)
unfolding get String-discrete ℕ_discrete
get_second = refl

prune_all_first : prune_all 15 two_rows ≡ (row "a" 2 "y" 20 ∷ [], 1)
unfolding prune_all
prune_all_first = refl
