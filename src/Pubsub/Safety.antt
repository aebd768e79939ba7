-- ===== src/Pubsub/Safety.antt =====
-- Panics in internal/pubsub/notifier.go: a send on a closed channel, a second close.
use hooks.Prelude.{
  ℕ, ◌<◌, ◌≡◌, refl, subst, ◌∙◌, Option-cases, ◌≢◌, inl, inr, String, List, [], ◌∷◌, Bool, true,
  false, not, ◌&&◌, Option, none, some, arith, ◌==◌, keep, any, All, All-imp, All-keep, string_eq,
  nat_eq, Bool-cases,
}
use hooks.Pubsub.{
  Chan, Notifier, new, subscribe, is_sub, unsubscribe, send, publish_to, publish, update, Call,
  subscribes, unsubscribes, publishes, receives, step, run,
}

-- Channel numbers differ.
abbrev pub Distinct : List (String × ℕ) → Type 0
Distinct [] = Unit {0}
Distinct ((s, ch) ∷ subs) = All (λ x. x.1 ≢ ch) subs × Distinct subs

-- A registered channel is open and was allocated, and no channel is registered twice.
pub record Inv (n : Notifier) : Type 0 where
  pub is_open : All (λ s. (n.chans s.1).closed ≡ false) n.subs
  pub allocated : All (λ s. s.1 < n.next) n.subs
  pub distinct : Distinct n.subs

new-Inv : Inv new
unfolding new
new-Inv = record { is_open = tt; allocated = tt; distinct = tt }

fresh_distinct :
    (k : ℕ) (subs : List (String × ℕ)) → All (λ s. s.1 < k) subs → All (λ s. s.1 ≢ k) subs
fresh_distinct k subs = All-imp subs λ s h. omega arith

subscribe-Inv : (source : String) (n : Notifier) → Inv n → Inv (subscribe source n).0
unfolding subscribe
subscribe-Inv source n v = record {
  is_open = (ground arith, All-imp n.subs (λ s h. ground arith) v.is_open);
  allocated = (omega arith, All-imp n.subs (λ s h. omega arith) v.allocated);
  distinct = (fresh_distinct n.next n.subs v.allocated, v.distinct);
}

Distinct-keep :
    (p : String × ℕ → Bool) (subs : List (String × ℕ)) → Distinct subs → Distinct (keep p subs)
Distinct-keep p [] d = tt
Distinct-keep p ((s, ch) ∷ subs) d =
    ground (arith, All-keep (λ x. x.1 ≢ ch) p subs d.0, Distinct-keep p subs d.1)

other_chan :
    (source : String) (ch c : ℕ) (subs : List (String × ℕ))
    → any (is_sub source ch) subs ≡ true
    → All (λ x. x.1 ≢ c) subs
    → c ≢ ch
other_chan source ch c [] h d = cc
other_chan source ch c ((s, k) ∷ subs) h d = ground (arith, other_chan source ch c subs)

-- After an entry has been taken out, no entry has its channel.
removed :
    (source : String) (ch : ℕ) (subs : List (String × ℕ))
    → any (is_sub source ch) subs ≡ true
    → Distinct subs
    → All (λ x. x.1 ≢ ch) (keep (λ s. not (is_sub source ch s)) subs)
removed source ch [] h d = tt
removed source ch ((s, c) ∷ subs) h d = elim (Bool-cases (s == source && c == ch)) [
  | inl e ↦ rw e (All-keep _ _ subs (All-imp subs (λ x g. ground arith) d.0))
  | inr e ↦
      rw e (other_chan source ch c subs (rw e at h) d.0, removed source ch subs (rw e at h) d.1)
]

open_of_any :
    (source : String) (ch : ℕ) (chans : ℕ → Chan) (subs : List (String × ℕ))
    → any (is_sub source ch) subs ≡ true
    → All (λ s. (chans s.1).closed ≡ false) subs
    → (chans ch).closed ≡ false
open_of_any source ch chans [] h o = cc
open_of_any source ch chans ((s, c) ∷ subs) h o = ground (arith, open_of_any source ch chans subs)

-- `r` is no panic, and its state satisfies the invariant.
abbrev pub Runs : Option Notifier → Type 0
Runs none = ⊥
Runs (some n) = Inv n

unsubscribe-Runs :
    (source : String) (ch : ℕ) (n : Notifier) → Inv n → Runs (unsubscribe source ch n)
unfolding unsubscribe
unsubscribe-Runs source ch n v = elim (Bool-cases (any (is_sub source ch) n.subs)) [
  | inr e ↦ rw e v
  | inl e ↦
      rw (e, open_of_any source ch n.chans n.subs e v.is_open)
        (record {
          is_open = both _ (removed source ch n.subs e v.distinct) (All-keep _ _ n.subs v.is_open);
          allocated = All-keep _ _ n.subs v.allocated;
          distinct = Distinct-keep _ n.subs v.distinct;
        })
]
  where
    both :
        (subs : List (String × ℕ))
        → All (λ x. x.1 ≢ ch) subs
        → All (λ s. (n.chans s.1).closed ≡ false) subs
        → All
            (λ s. (update n.chans ch (record (n.chans ch) { closed = true }) s.1).closed ≡ false)
            subs
    both [] h o = tt
    both ((s, c) ∷ subs) h o = (ground arith, both subs h.1 o.1)

-- A send keeps every channel open or closed as it was.
send-some :
    (ch sequence : ℕ) (chans : ℕ → Chan)
    → (chans ch).closed ≡ false
    → (chans' : ℕ → Chan) × (send ch sequence chans ≡ some chans')
      × ((c : ℕ) → (chans' c).closed ≡ (chans c).closed)
unfolding send
send-some ch sequence chans h = elim (Option-cases (chans ch).buffer) [
  | inl e ↦ (
    update chans ch (record (chans ch) { buffer = some sequence }),
    ground arith,
    λ c. ground arith,
  )
  | inr (v, e) ↦ (chans, ground arith, λ c. refl)
]

publish_to-some :
    (source : String) (sequence : ℕ) (subs : List (String × ℕ)) (chans : ℕ → Chan)
    → All (λ s. (chans s.1).closed ≡ false) subs
    → (chans' : ℕ → Chan) × (publish_to source sequence subs chans ≡ some chans')
      × ((c : ℕ) → (chans' c).closed ≡ (chans c).closed)
unfolding publish_to
publish_to-some source sequence [] chans o = (chans, refl, λ c. refl)
publish_to-some source sequence ((s, ch) ∷ subs) chans o = elim (Bool-cases (s == source)) [
  | inr e ↦
      let (chans', q, k) = publish_to-some source sequence subs chans o.1 in (chans', rw e q, k)
  | inl e ↦
      let (mid, p, j) = send-some ch sequence chans o.0 in
      let (chans', q, k) =
        publish_to-some source sequence subs mid (All-imp subs (λ x h. j x.1 ∙ h) o.1) in
      (chans', rw (e, p) q, λ c. k c ∙ j c)
]

publish-Runs :
    (source : String) (sequence : ℕ) (n : Notifier) → Inv n → Runs (publish source sequence n)
unfolding publish
publish-Runs source sequence n v =
    let (chans', q, k) = publish_to-some source sequence n.subs n.chans v.is_open in
    rw (q, Runs)
      (record {
        is_open = All-imp n.subs (λ x h. k x.1 ∙ h) v.is_open;
        allocated = v.allocated;
        distinct = v.distinct;
      })

step-Runs : (c : Call) (n : Notifier) → Inv n → Runs (step c n)
unfolding step
step-Runs (subscribes source) n v = subscribe-Inv source n v
step-Runs (unsubscribes source ch) n v = unsubscribe-Runs source ch n v
step-Runs (publishes source sequence) n v = publish-Runs source sequence n v
step-Runs (receives ch) n v = record {
  is_open = All-imp n.subs (λ x h. ground arith) v.is_open;
  allocated = v.allocated;
  distinct = v.distinct;
}

run-Runs : (calls : List Call) (n : Notifier) → Inv n → Runs (run calls n)
unfolding run
run-Runs [] n v = v
run-Runs (c ∷ calls) n v = elim (Option-cases (step c n)) [
  | inl e ↦ absurd (subst Runs e (step-Runs c n v))
  | inr (n', e) ↦ rw (e, Runs) (run-Runs calls n' (subst Runs e (step-Runs c n v)))
]

-- From a new notifier any calls in any order run without a panic, and then every registered
-- channel is open and registered once.
pub run-new-Runs : (calls : List Call) → Runs (run calls new)
run-new-Runs calls = run-Runs calls new new-Inv
