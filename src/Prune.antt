-- ===== src/Prune.antt =====
-- internal/prune/prune.go: a pass of the pruner over the event store and the tokens. `now` is the
-- clock when the source is reached, and `fails` says that the store refuses to prune it.
mod Tests
use hooks.Prelude.{
  ℕ, ◌+◌, ◌-◌, ◌*◌, ◌≤◌, ◌≡◌, refl, ◌≢◌, ◌↔◌, String, List, [], ◌∷◌, Bool, true, false, Option,
  none, some, arith, ltb, ◌&&◌, ◌==◌, if◌then◌else◌, All, Has, Bool-cases, inl, inr, string_eq,
  nat_eq, ◌^◌,
}
use hooks.Sources.{second}
use hooks.Store.Events.{Event, prune, prune_all}
use hooks.Store.Events.Dedupe.{prune_exact}
use hooks.Store.Tokens.{TokenTable, expire_ephemeral_tokens_idle, get_token}
use hooks.Store.Tokens.Revocation.{swept, expire_exact}

abbrev pub ephemeral_token_idle : ℕ
ephemeral_token_idle = 24 * 3600 * second

-- What a pass does with one source; a retention of 0 turns it off.
unfoldable pub prune_source : (String → ℕ) → (String → Bool) → String → ℕ → List Event → List Event
unfolding prune
prune_source now fails source retention rows =
    if retention == 0
    then rows
    else if fails source
    then rows
    else (prune source (now source - retention) rows).0

unfoldable pub prune_sources :
    (String → ℕ) → (String → Bool) → List (String × ℕ) → List Event → List Event
unfolding prune_source
prune_sources now fails [] rows = rows
prune_sources now fails ((source, retention) ∷ retentions) rows =
    prune_sources now fails retentions (prune_source now fails source retention rows)

abbrev pub sweep_tokens : ℕ → Option TokenTable → Option TokenTable
sweep_tokens now none = none
sweep_tokens now (some tokens) =
    some (expire_ephemeral_tokens_idle now (now - ephemeral_token_idle) tokens).0

-- `RunOnce`; `swept_at` is the clock at the sweep of the tokens, which `tokens` holds if a token
-- store was wired in.
unfoldable pub run_once :
    (String → ℕ)
    → (String → Bool)
    → ℕ
    → List (String × ℕ)
    → List Event
    → Option TokenTable
    → List Event × Option TokenTable
unfolding prune_sources
run_once now fails swept_at retentions rows tokens =
    (prune_sources now fails retentions rows, sweep_tokens swept_at tokens)

-- `PruneOlderThan`
unfoldable pub prune_older_than : ℕ → ℕ → List Event → List Event × ℕ
unfolding prune_all
prune_older_than older now rows = prune_all (now - older) rows

-- The source and its retention do not drop the event.
abbrev pub Keeps : (String → ℕ) → (String → Bool) → Event → String × ℕ → Type 0
Keeps now fails e (source, retention) =
    retention ≢ 0
    → fails source ≡ false
    → e.source ≡ source
    → now source ≤ e.received_at + retention

prune_source-Has :
    (now : String → ℕ) (fails : String → Bool) (source : String) (retention : ℕ) (rows : List Event)
    (e : Event)
    → Has e (prune_source now fails source retention rows)
      ↔ (Has e rows × Keeps now fails e (source, retention))
unfolding prune_source
prune_source-Has now fails source retention rows e = elim (Bool-cases (retention == 0)) [
  | inl z ↦ rw (z, prune_source) ((λ h. (h, λ r. absurd (r (ground arith)))), λ h. h.0)
  | inr z ↦ elim (Bool-cases (fails source)) [
    | inl f ↦ rw (z, f, prune_source) ((λ h. (h, λ r g. cc)), λ h. h.0)
    | inr f ↦
        let exact = (prune_exact source (now source - retention) rows).0 e in
        rw (z, f, prune_source)
          (
            (λ h. let (k, q) = exact.0 h in (k, λ r g s. omega (arith, q s))),
            λ (k, q). exact.1 (k, λ s. omega (arith, q (ground arith) refl s)),
          )
  ]
]

sources-Has :
    (now : String → ℕ) (fails : String → Bool) (retentions : List (String × ℕ)) (rows : List Event)
    (e : Event)
    → Has e (prune_sources now fails retentions rows)
      ↔ (Has e rows × All (Keeps now fails e) retentions)
unfolding prune_sources
sources-Has now fails [] rows e = ((λ h. (h, tt)), λ h. h.0)
sources-Has now fails ((source, retention) ∷ retentions) rows e =
    let rest = sources-Has now fails retentions (prune_source now fails source retention rows) e in
    let first = prune_source-Has now fails source retention rows e in
    (
      (λ h. let (k, q) = rest.0 h in let (k', a) = first.0 k in (k', (a, q))),
      λ (k, q). rest.1 (first.1 (k, q.0), q.1),
    )

-- A pass leaves exactly the events that no source of the configuration drops: one of its own
-- source, with a retention that is not 0 and a store that does not fail, older than the retention.
-- It revokes exactly the ephemeral tokens that were idle for longer than 24 hours.
pub run_once_exact :
    (now : String → ℕ) (fails : String → Bool) (swept_at : ℕ) (retentions : List (String × ℕ))
    (rows : List Event) (tokens : TokenTable)
    → ((e : Event)
        → Has e (run_once now fails swept_at retentions rows (some tokens)).0
          ↔ (Has e rows × All (Keeps now fails e) retentions))
      × (left : TokenTable) × ((run_once now fails swept_at retentions rows (some tokens)).1
          ≡ some left)
      × ((id : String)
          → get_token id left
            ≡ swept swept_at (swept_at - 24 * 3600 * 10 ^ 9) (get_token id tokens))
unfolding run_once
run_once_exact now fails swept_at retentions rows tokens = (
  (λ e. sources-Has now fails retentions rows e),
  (expire_ephemeral_tokens_idle swept_at (swept_at - 24 * 3600 * 10 ^ 9) tokens).0,
  refl,
  λ id. expire_exact swept_at (swept_at - 24 * 3600 * 10 ^ 9) id tokens,
)
