-- ===== src/Store/Latest/Tests.antt =====
-- A list view over two sources, one of which the reader fails on, and the theorem applied to it.
use hooks.Prelude.{
  ℕ, ◌+◌, ◌≡◌, refl, String, List, [], ◌∷◌, map, none, some, ◌==◌, if◌then◌else◌, string_eq,
  String-discrete, ℕ_discrete,
}
use hooks.Store.Latest.{Reader, gets, queue_depth, new_latest_by_cursor, recall}
use hooks.Store.Latest.Memo.{asked, firsts, answer, gets_read}

-- The reader counts its queries.
abbrev reader : Reader ℕ String
reader s n = (if s == "oba" then (3 + n, none) else (0, some "closed"), n + 1)

abbrev views : List String
views = "oba" ∷ "gone" ∷ "oba" ∷ []

gets_read_example :
    let r = gets reader views new_latest_by_cursor 0 in
    let queries = asked reader (firsts [] views) [] none 0 in
    (r.0 ≡ map (λ s. answer s queries.0) views) × (r.1.first_err ≡ queries.1) × (r.2 ≡ queries.2)
gets_read_example = gets_read reader views 0

numbers : (gets reader views new_latest_by_cursor 0).0 ≡ 3 ∷ 0 ∷ 3 ∷ []
unfolding gets recall String-discrete ℕ_discrete
numbers = refl

queried_twice : (gets reader views new_latest_by_cursor 0).2 ≡ 2
unfolding gets recall String-discrete ℕ_discrete
queried_twice = refl

behind : queue_depth 7 4 ≡ 3
unfolding queue_depth
behind = refl

ahead : queue_depth 4 7 ≡ 0
unfolding queue_depth
ahead = refl
