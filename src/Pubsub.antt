-- ===== src/Pubsub.antt =====
-- internal/pubsub/notifier.go. `subs` holds a pair for each channel in each source's set, so a
-- source whose set is empty has no pair, as the code deletes it. Channels live on a heap; each has
-- a buffer of one value. `none` is a panic: a send on a closed channel or a second close. The
-- mutex makes every method one step.
pub mod Safety
pub mod Wake
mod Tests
use hooks.Prelude.{
  ℕ, ◌+◌, String, List, [], ◌∷◌, Bool, true, false, not, ◌&&◌, Option, none, some, ◌==◌,
  if◌then◌else◌, keep, any, length, string_eq, nat_eq,
}

pub record Chan : Type 0 where
  pub buffer : Option ℕ
  pub closed : Bool

pub record Notifier : Type 0 where
  pub subs : List (String × ℕ)
  pub chans : ℕ → Chan
  pub next : ℕ

abbrev pub update : (ℕ → Chan) → ℕ → Chan → ℕ → Chan
update chans ch c j = if j == ch then c else chans j

-- `make(chan int64, 1)`
abbrev pub fresh : Chan
fresh = record { buffer = none; closed = false }

-- `New`
unfoldable pub new : Notifier
new = record { subs = []; chans = λ ch. fresh; next = 0 }

unfoldable pub subscribe : String → Notifier → Notifier × ℕ
subscribe source n = (
  record {
    subs = (source, n.next) ∷ n.subs;
    chans = update n.chans n.next fresh;
    next = n.next + 1;
  },
  n.next,
)

abbrev pub is_sub : String → ℕ → String × ℕ → Bool
is_sub source ch (s, c) = s == source && c == ch

-- `close(ch)`
unfoldable pub close : ℕ → Notifier → Option Notifier
close ch n =
    if (n.chans ch).closed
    then none
    else some (record n { chans = update n.chans ch (record (n.chans ch) { closed = true }) })

unfoldable pub unsubscribe : String → ℕ → Notifier → Option Notifier
unfolding close
unsubscribe source ch n =
    if any (is_sub source ch) n.subs
    then close ch (record n { subs = keep (λ s. not (is_sub source ch s)) n.subs })
    else some n

-- `select { case ch <- sequence: default: }`
unfoldable pub send : ℕ → ℕ → (ℕ → Chan) → Option (ℕ → Chan)
send ch sequence chans = if (chans ch).closed then none else elim (chans ch).buffer [
  | none ↦ some (update chans ch (record (chans ch) { buffer = some sequence }))
  | some _ ↦ some chans
]

unfoldable pub publish_to : String → ℕ → List (String × ℕ) → (ℕ → Chan) → Option (ℕ → Chan)
publish_to source sequence [] chans = some chans
publish_to source sequence ((s, ch) ∷ subs) chans =
    if s == source
    then elim (send ch sequence chans) [
      | none ↦ none
      | some chans' ↦ publish_to source sequence subs chans'
    ]
    else publish_to source sequence subs chans

unfoldable pub publish : String → ℕ → Notifier → Option Notifier
publish source sequence n = elim (publish_to source sequence n.subs n.chans) [
  | none ↦ none
  | some chans ↦ some (record n { chans = chans })
]

-- A subscriber takes the buffered value, if there is one.
unfoldable pub receive : ℕ → Notifier → Notifier
receive ch n = record n { chans = update n.chans ch (record (n.chans ch) { buffer = none }) }

unfoldable pub subscriber_count : String → Notifier → ℕ
subscriber_count source n = length (keep (λ s. s.0 == source) n.subs)

pub data Call : Type 0 where
  subscribes : String → Call
  unsubscribes : String → ℕ → Call
  publishes : String → ℕ → Call
  receives : ℕ → Call

unfoldable pub step : Call → Notifier → Option Notifier
unfolding subscribe unsubscribe publish receive
step (subscribes source) n = some (subscribe source n).0
step (unsubscribes source ch) n = unsubscribe source ch n
step (publishes source sequence) n = publish source sequence n
step (receives ch) n = some (receive ch n)

-- The calls in the order in which they take the mutex.
unfoldable pub run : List Call → Notifier → Option Notifier
run [] n = some n
run (c ∷ calls) n = elim (step c n) [ none ↦ none | some n' ↦ run calls n' ]
