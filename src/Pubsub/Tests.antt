-- ===== src/Pubsub/Tests.antt =====
-- The notifier on a short run.
use hooks.Prelude.{
  if◌then◌else◌, String-discrete, ℕ_discrete, ℕ, ◌≡◌, ◌≢◌, refl, List, [], ◌∷◌, true, false, none,
  some, any, string_eq, nat_eq, ◌==◌,
}
use hooks.Pubsub.{
  Notifier, Call, subscribes, unsubscribes, publishes, receives, run, new, is_sub, publish,
  subscriber_count, fresh, publish_to, send,
}
use hooks.Pubsub.Safety.{Runs, run-new-Runs}
use hooks.Pubsub.Wake.{publish_wakes}

abbrev calls : List Call
calls =
    subscribes "a"
    ∷ subscribes "b"
    ∷ publishes "a" 1
    ∷ publishes "a" 2
    ∷ unsubscribes "a" 0
    ∷ unsubscribes "a" 0
    ∷ publishes "a" 3
    ∷ receives 1
    ∷ []

run-new-Runs_example : Runs (run calls new)
run-new-Runs_example = run-new-Runs calls

abbrev busy : Notifier
busy = record { subs = ("a", 0) ∷ ("b", 1) ∷ []; chans = λ ch. fresh; next = 2 }

abbrev signalled : Notifier
signalled = record busy {
  chans = λ j. if j == 0 then record { buffer = some 5; closed = false } else fresh;
}

publish_wakes_example :
    ((c : ℕ)
      → (any (is_sub "a" c) busy.subs ≡ true → (signalled.chans c).buffer ≢ none)
        × (any (is_sub "a" c) busy.subs ≡ false → signalled.chans c ≡ busy.chans c))
    × (signalled.subs ≡ busy.subs)
unfolding publish publish_to send String-discrete ℕ_discrete
publish_wakes_example = publish_wakes "a" 5 busy signalled refl

-- `SubscriberCount`
busy_count : subscriber_count "a" busy ≡ 1
unfolding subscriber_count String-discrete
busy_count = refl
