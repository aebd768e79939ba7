-- ===== src/Store/Latest.antt =====
-- internal/store/latest.go: the memo of the latest sequence numbers for one request, over any reader of
-- events. The reader yields a number together with its error.
pub mod Memo
mod Tests
use hooks.Prelude.{
  ℕ, ◌-◌, String, List, [], ◌∷◌, Option, none, some, leb, ◌==◌, if◌then◌else◌, string_eq,
}

pub record LatestByCursor (E : Type 0) : Type 0 where
  pub seen : List (String × ℕ)
  pub first_err : Option E

unfoldable pub recall : String → List (String × ℕ) → Option ℕ
recall source [] = none
recall source ((s, v) ∷ seen) =
    let rest = recall source seen in if s == source then some v else rest

abbrev pub new_latest_by_cursor : {E : Type 0} → LatestByCursor E
new_latest_by_cursor = record { seen = []; first_err = none }

abbrev pub or_first : {E : Type 0} → Option E → Option E → Option E
or_first none e = e
or_first (some first) e = some first

-- A call of the reader changes a state of the reader's own, such as the count of its queries.
abbrev pub Reader : Type 0 → Type 0 → Type 0
Reader S E = String → S → (ℕ × Option E) × S

-- `Get` on what the map holds
unfoldable pub get_recalled :
    {S E : Type 0}
    → Reader S E
    → String
    → LatestByCursor E
    → S
    → Option ℕ
    → ℕ × LatestByCursor E × S
get_recalled events source c st (some v) = (v, c, st)
get_recalled events source c st none =
    let ((v, e), after) = events source st in
    (v, record { seen = (source, v) ∷ c.seen; first_err = or_first c.first_err e }, after)

-- `Get`
unfoldable pub get :
    {S E : Type 0} → Reader S E → String → LatestByCursor E → S → ℕ × LatestByCursor E × S
unfolding get_recalled recall
get events source c st = get_recalled events source c st (recall source c.seen)

-- The rows of a list view, one after the other
unfoldable pub gets :
    {S E : Type 0} → Reader S E → List String → LatestByCursor E → S → List ℕ × LatestByCursor E × S
unfolding get
gets events [] c st = ([], c, st)
gets events (s ∷ sources) c st =
    let step = get events s c st in
    let rest = gets events sources step.1 step.2 in (step.0 ∷ rest.0, rest.1, rest.2)

-- `QueueDepth`
unfoldable pub queue_depth : ℕ → ℕ → ℕ
queue_depth latest cursor = if leb latest cursor then 0 else latest - cursor
