-- ===== src/Store/Latest/Memo.antt =====
-- internal/store/latest.go: the memo asks the reader once for each source.
use hooks.Prelude.{
  ℕ, ◌≡◌, refl, sym, ap, ◌∙◌, inl, inr, String, true, false, List, [], ◌∷◌, map, Option, none, some,
  arith, Bool-cases, Option-cases, ◌==◌, if◌then◌else◌, string_eq, eq_of_beq, any,
}
use hooks.Store.Latest.{
  LatestByCursor, Reader, recall, or_first, get_recalled, get, gets, new_latest_by_cursor,
}

-- The sources that are not among some, each where it first occurs.
abbrev pub firsts : List String → List String → List String
firsts known [] = []
firsts known (s ∷ sources) =
    let rest = firsts (if any (λ k. k == s) known then known else s ∷ known) sources in
    if any (λ k. k == s) known then rest else s ∷ rest

-- What the reader answers to queries one after the other, the newest first, and its state then.
abbrev pub asked :
    {S E : Type 0}
    → Reader S E
    → List String
    → List (String × ℕ)
    → Option E
    → S
    → List (String × ℕ) × Option E × S
asked events [] answers first st = (answers, first, st)
asked events (s ∷ sources) answers first st =
    let ((v, e), after) = events s st in
    asked events sources ((s, v) ∷ answers) (elim first [ none ↦ e | some x ↦ some x ]) after

-- The number that the newest answer for a source has
abbrev pub answer : String → List (String × ℕ) → ℕ
answer s [] = 0
answer s ((t, v) ∷ answers) = let rest = answer s answers in if t == s then v else rest

abbrev names : List (String × ℕ) → List String
names [] = []
names ((s, v) ∷ seen) = s ∷ names seen

known-recall :
    (s : String) (v : ℕ) (seen : List (String × ℕ))
    → recall s seen ≡ some v
    → any (λ k. k == s) (names seen) ≡ true
unfolding recall
known-recall s v [] h = absurd (ground (arith, h))
known-recall s v ((t, w) ∷ seen) h = ground (arith, h, known-recall s v seen)

unknown-recall :
    (s : String) (seen : List (String × ℕ))
    → recall s seen ≡ none
    → any (λ k. k == s) (names seen) ≡ false
unfolding recall
unknown-recall s [] h = refl
unknown-recall s ((t, w) ∷ seen) h = ground (arith, h, unknown-recall s seen)

recall-later :
    (t s : String) (w v : ℕ) (seen : List (String × ℕ))
    → recall t seen ≡ none
    → recall s seen ≡ some v
    → recall s ((t, w) ∷ seen) ≡ some v
unfolding recall
recall-later t s w v seen e h = elim (Bool-cases (t == s)) [
  | inl q ↦ absurd (cc (eq_of_beq t s q, e, h))
  | inr q ↦ rw q h
]

recall-new : (s : String) (v : ℕ) (seen : List (String × ℕ)) → recall s ((s, v) ∷ seen) ≡ some v
unfolding recall
recall-new s v seen = let same : (s == s) ≡ true = ground arith in rw same refl

recall-answer :
    (s : String) (v : ℕ) (seen : List (String × ℕ)) → recall s seen ≡ some v → answer s seen ≡ v
unfolding recall
recall-answer s v [] h = absurd (ground (arith, h))
recall-answer s v ((t, w) ∷ seen) h = ground (arith, h, recall-answer s v seen)

first_of : {E : Type 0} (a b : Option E) → or_first a b ≡ elim a [ none ↦ b | some x ↦ some x ]
first_of none b = refl
first_of (some a) b = refl

module _ {S E : Type 0} (events : Reader S E) where
  get-known :
      (s : String) (v : ℕ) (c : LatestByCursor E) (st : S)
      → recall s c.seen ≡ some v
      → get events s c st ≡ (v, c, st)
  unfolding get get_recalled
  get-known s v c st h = rw h refl

  get-unknown :
      (s : String) (c : LatestByCursor E) (st : S)
      → recall s c.seen ≡ none
      → get events s c st ≡ get_recalled events s c st none
  unfolding get
  get-unknown s c st h = rw h refl

  -- The memo and the reader after the requests are those after one query for each new source.
  gets-asked :
      (sources : List String) (c : LatestByCursor E) (st : S)
      → let r = gets events sources c st in
        (r.1.seen, r.1.first_err, r.2)
        ≡ asked events (firsts (names c.seen) sources) c.seen c.first_err st
  unfolding gets get_recalled
  gets-asked [] c st = refl
  gets-asked (s ∷ sources) c st = elim (Option-cases (recall s c.seen)) [
    | inr (v, e) ↦ rw (get-known s v c st e, known-recall s v c.seen e) (gets-asked sources c st)
    | inl e ↦
        rw (get-unknown s c st e, unknown-recall s c.seen e)
          (gets-asked sources (get_recalled events s c st none).1 (events s st).1
            ∙ ap
                (λ x.
                  asked events (firsts (s ∷ names c.seen) sources) ((s, (events s st).0.0) ∷ c.seen)
                    x (events s st).1)
                (first_of c.first_err (events s st).0.1))
  ]

  gets-kept :
      (sources : List String) (c : LatestByCursor E) (st : S) (s : String) (v : ℕ)
      → recall s c.seen ≡ some v
      → recall s (gets events sources c st).1.seen ≡ some v
  unfolding gets get_recalled
  gets-kept [] c st s v h = h
  gets-kept (t ∷ sources) c st s v h = elim (Option-cases (recall t c.seen)) [
    | inr (w, e) ↦ rw (get-known t w c st e) (gets-kept sources c st s v h)
    | inl e ↦ rw (get-unknown t c st e) (
        gets-kept sources (get_recalled events t c st none).1 (events t st).1 s v
          (recall-later t s (events t st).0.0 v c.seen e h))
  ]

  -- Every value is the answer of a table that agrees with the memo in the end.
  gets-answer :
      (answers : List (String × ℕ)) (sources : List String) (c : LatestByCursor E) (st : S)
      → ((s : String) (v : ℕ)
          → recall s (gets events sources c st).1.seen ≡ some v
          → answer s answers ≡ v)
      → (gets events sources c st).0 ≡ map (λ s. answer s answers) sources
  unfolding gets get_recalled
  gets-answer answers [] c st agree = refl
  gets-answer answers (s ∷ sources) c st agree = elim (Option-cases (recall s c.seen)) [
    | inr (v, e) ↦
        let value : answer s answers ≡ v =
          agree s v (rw (get-known s v c st e) (gets-kept sources c st s v e)) in
        rw (get-known s v c st e) (
          both v (answer s answers) (gets events sources c st).0 (sym value)
            (gets-answer answers sources c st (λ t w q. agree t w (rw (get-known s v c st e) q))))
    | inl e ↦
        let d = (get_recalled events s c st none).1 in
        let now = (events s st).1 in
        let v = (events s st).0.0 in
        let value : answer s answers ≡ v =
          agree s v
            (rw (get-unknown s c st e) (gets-kept sources d now s v (recall-new s v c.seen))) in
        rw (get-unknown s c st e) (
          both v (answer s answers) (gets events sources d now).0 (sym value)
            (gets-answer answers sources d now (λ t w q. agree t w (rw (get-unknown s c st e) q))))
  ]
    where
      both :
          (v w : ℕ) (vs : List ℕ)
          → v ≡ w
          → vs ≡ map (λ s. answer s answers) sources
          → ◌≡◌ {A = List ℕ} (v ∷ vs) (w ∷ map (λ s. answer s answers) sources)
      both v w vs p q = ap (λ x. x ∷ vs) p ∙ ap (λ xs. w ∷ xs) q

-- However often each source is asked for, the memo asks the reader for it once, at its first request:
-- the reader's state after the requests is that after one query for each source in the order of
-- their first requests, every request gets the number that its source's query gave, and the error is
-- the first that one of these queries gave.
pub gets_read :
    {S E : Type 0} (events : Reader S E) (sources : List String) (st : S)
    → let r = gets events sources new_latest_by_cursor st in
      let queries = asked events (firsts [] sources) [] none st in
      (r.0 ≡ map (λ s. answer s queries.0) sources)
      × (r.1.first_err ≡ queries.1)
      × (r.2 ≡ queries.2)
gets_read events sources st =
    let same = gets-asked events sources new_latest_by_cursor st in
    (
      gets-answer events (asked events (firsts [] sources) [] none st).0 sources
          new_latest_by_cursor st
          (λ s v h. ap (λ q. answer s q.0) (sym same) ∙ recall-answer s v _ h),
      ap (λ q. q.1) same,
      ap (λ q. q.2) same,
    )
