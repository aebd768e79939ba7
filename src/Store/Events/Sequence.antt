-- ===== src/Store/Events/Sequence.antt =====
-- The sequence numbers that `SQLite.Append` of internal/store/sqlite.go assigns.
use hooks.Prelude.{
  ℕ, ◌+◌, ◌≤◌, ◌<◌, ◌≡◌, refl, ◌∙◌, ◌≢◌, String, List, [], ◌∷◌, ◌++◌, Bool, false, ◌&&◌, some,
  arith, ◌==◌, ok, keep, any, All, All-append, All-keep, string_eq, nat_eq,
}
use hooks.Store.Events.{
  new_event, Event, AppendInput, latest_event_sequence, insert_event, append, latest_sequence,
}

-- Numbers are positive and, within a source, rise in the order of insertion.
abbrev pub IsLog : List Event → Type 0
IsLog [] = Unit {0}
IsLog (e ∷ rows) =
    All (λ x. x.source ≡ e.source → e.sequence < x.sequence) rows × (0 < e.sequence) × IsLog rows

module _ (source : String) where
  -- No row of the source has a number above the latest.
  pub latest_bounds :
      (rows : List Event)
      → All (λ x. x.source ≡ source → x.sequence ≤ latest_event_sequence source rows) rows
  unfolding latest_event_sequence
  latest_bounds rows = bounds rows (latest_event_sequence source rows) (omega arith)
    where
      bounds :
          (rows : List Event) (n : ℕ)
          → latest_event_sequence source rows ≤ n
          → All (λ x. x.source ≡ source → x.sequence ≤ n) rows
      bounds [] n h = tt
      bounds (e ∷ rows) n h = ((λ p. ground arith), bounds rows n (ground arith))

  pub latest-append :
      (e : Event) (rows : List Event)
      → e.source ≡ source
      → latest_event_sequence source rows < e.sequence
      → latest_event_sequence source (rows ++ e ∷ []) ≡ e.sequence
  unfolding latest_event_sequence
  latest-append e [] p h = ground arith
  latest-append e (x ∷ rows) p h = ground (arith, latest-append e rows p)

pub latest-append_other :
    (source : String) (e : Event) (rows : List Event)
    → e.source ≢ source
    → latest_event_sequence source (rows ++ e ∷ []) ≡ latest_event_sequence source rows
unfolding latest_event_sequence
latest-append_other source e [] p = ground arith
latest-append_other source e (x ∷ rows) p = ground (arith, latest-append_other source e rows p)

IsLog-concat :
    (e : Event) (rows : List Event)
    → 0 < e.sequence
    → All (λ x. x.source ≡ e.source → x.sequence < e.sequence) rows
    → IsLog rows
    → IsLog (rows ++ e ∷ [])
IsLog-concat e [] p h l = (tt, p, tt)
IsLog-concat e (x ∷ rows) p h l = (
  All-append _ rows (e ∷ []) l.0 ((λ q. h.0 (ground arith)), tt),
  l.1,
  IsLog-concat e rows p h.1 l.2,
)

IsLog-keep : (p : Event → Bool) (rows : List Event) → IsLog rows → IsLog (keep p rows)
IsLog-keep p [] l = tt
IsLog-keep p (e ∷ rows) l = ground (
  arith,
  All-keep (λ x. x.source ≡ e.source → e.sequence < x.sequence) p rows l.0,
  IsLog-keep p rows l.2,
)

any-false :
    (p : Event → Bool) (rows : List Event) → All (λ x. p x ≡ false) rows → any p rows ≡ false
any-false p [] h = refl
any-false p (x ∷ rows) h = ground (arith, any-false p rows h.1)

module _ (sha256 : List ℕ → String) (window now : ℕ) (inp : AppendInput) (rows : List Event) where
  fresh_key :
      (xs : List Event)
      → All (λ x. x.source ≡ inp.source → x.sequence ≤ latest_event_sequence inp.source rows) xs
      → All
          (λ x.
            (x.source == inp.source && x.sequence == (latest_event_sequence inp.source rows + 1))
            ≡ false)
          xs
  fresh_key [] h = tt
  fresh_key (x ∷ xs) h = (ground (arith, h.0), fresh_key xs h.1)

  -- The new number is above every number of the source, so the insert meets no other row.
  pub insert_new_event :
      insert_event (new_event sha256 now inp rows) rows
      ≡ some (rows ++ new_event sha256 now inp rows ∷ [])
  unfolding insert_event new_event
  insert_new_event = rw (any-false _ rows (fresh_key rows (latest_bounds inp.source rows)))

  rising :
      (xs : List Event)
      → All (λ x. x.source ≡ inp.source → x.sequence ≤ latest_event_sequence inp.source rows) xs
      → All (λ x. x.source ≡ inp.source → x.sequence < latest_event_sequence inp.source rows + 1) xs
  rising [] h = tt
  rising (x ∷ xs) h = ((λ p. omega (arith, h.0 p)), rising xs h.1)

  -- `Append` keeps the numbers of every source positive and rising, whatever it returns.
  pub append-IsLog : IsLog rows → IsLog (append sha256 window now inp rows).1
  unfolding append new_event
  append-IsLog l = ground (
    arith,
    insert_new_event,
    IsLog-concat (new_event sha256 now inp rows) rows (omega arith)
        (rising rows (latest_bounds inp.source rows)) l,
  )

  -- What `Append` returns is the event at the end of the log. Its number is one above the latest
  -- of its source and is the latest afterwards; the latest of another source stays.
  pub append_gapless :
      (e : Event)
      → (append sha256 window now inp rows).0 ≡ ok e
      → ((append sha256 window now inp rows).1 ≡ rows ++ e ∷ [])
        × (e.sequence ≡ latest_sequence inp.source rows + 1)
        × (latest_sequence inp.source (append sha256 window now inp rows).1 ≡ e.sequence)
        × ((other : String)
            → inp.source ≢ other
            → latest_sequence other (append sha256 window now inp rows).1
              ≡ latest_sequence other rows)
  unfolding append new_event latest_sequence
  append_gapless e h =
      let stored : (append sha256 window now inp rows).1
          ≡ rows ++ new_event sha256 now inp rows ∷ [] =
        ground (arith, insert_new_event) in
      (
        ground (arith, insert_new_event),
        ground (arith, insert_new_event),
        rw stored (
            latest-append inp.source (new_event sha256 now inp rows) rows refl (omega arith)
            ∙ ground (arith, insert_new_event)),
        λ other p. rw stored (latest-append_other other (new_event sha256 now inp rows) rows p),
      )
