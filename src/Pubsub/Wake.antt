-- ===== src/Pubsub/Wake.antt =====
-- The signals that `Publish` of internal/pubsub/notifier.go leaves with subscribers.
use hooks.Prelude.{
  ℕ, ◌≡◌, ◌∙◌, ◌≢◌, inl, inr, String, List, [], ◌∷◌, Bool, true, false, none, some, arith, ◌==◌,
  any, string_eq, nat_eq, Bool-cases, Option-cases,
}
use hooks.Pubsub.{Chan, Notifier, is_sub, send, publish_to, publish}

module _ (source : String) (sequence : ℕ) where
  abbrev Full : (ℕ → Chan) → ℕ → Type 0
  Full chans c = (chans c).buffer ≢ none

  send-Full :
      (ch c : ℕ) (chans chans' : ℕ → Chan)
      → send ch sequence chans ≡ some chans'
      → (Full chans c → Full chans' c) × Full chans' ch × ((c ≢ ch) → chans' c ≡ chans c)
  unfolding send
  send-Full ch c chans chans' h = (λ f. ground arith, ground arith, λ d. ground arith)

  -- Some entry of the source stands for the channel.
  abbrev is_target : ℕ → List (String × ℕ) → Bool
  is_target c subs = any (is_sub source c) subs

  publish_to-Full :
      (subs : List (String × ℕ)) (chans chans' : ℕ → Chan) (c : ℕ)
      → publish_to source sequence subs chans ≡ some chans'
      → (Full chans c → Full chans' c)
        × (is_target c subs ≡ true → Full chans' c)
        × (is_target c subs ≡ false → chans' c ≡ chans c)
  unfolding publish_to
  publish_to-Full [] chans chans' c h = (λ f. ground arith, λ t. cc, λ t. ground arith)
  publish_to-Full ((s, ch) ∷ subs) chans chans' c h = elim (Bool-cases (s == source)) [
    | inr e ↦
        let (k, t, o) = publish_to-Full subs chans chans' c (ground arith) in
        (k, λ q. t (ground arith), λ q. o (ground arith))
    | inl e ↦ elim (Option-cases (send ch sequence chans)) [
      | inl p ↦ absurd (ground arith)
      | inr (mid, p) ↦
          let (k, t, o) = publish_to-Full subs mid chans' c (ground arith) in
          let (k', t', o') = send-Full ch c chans mid p in
          (λ f. k (k' f), λ q. ground (arith, k, t, t'), λ q. o (ground arith) ∙ o' (ground arith))
    ]
  ]

  -- After `Publish` every subscriber of the source has a value waiting, and the channels of other
  -- subscribers, and the subscriptions, are as before.
  pub publish_wakes :
      (n n' : Notifier)
      → publish source sequence n ≡ some n'
      → ((c : ℕ)
          → (is_target c n.subs ≡ true → Full n'.chans c)
            × (is_target c n.subs ≡ false → n'.chans c ≡ n.chans c))
        × (n'.subs ≡ n.subs)
  unfolding publish
  publish_wakes n n' h = elim (Option-cases (publish_to source sequence n.subs n.chans)) [
    | inl e ↦ absurd (ground arith)
    | inr (chans, e) ↦ (
      λ c.
          let (_, t, o) = publish_to-Full n.subs n.chans chans c e in
          ((λ q. ground (arith, t q)), λ q. ground (arith, o q)),
      ground arith,
    )
  ]
