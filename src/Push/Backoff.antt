-- ===== src/Push/Backoff.antt =====
-- `backoff` of internal/push/worker.go: the bound of the delay after a failure.
use native.Mathlib.Nat.{pow-le-pow_right}
use hooks.Prelude.{ℕ, ◌+◌, ◌*◌, ◌^◌, ◌≤◌, ◌<◌, ◌≡◌, min, arith, ltb, ltb→lt, Bool-cases, inl, inr}
use hooks.Push.{backoff, backoff_base, millisecond, default_backoff_cap}

abbrev bound : ℕ → ℕ
bound failures = min default_backoff_cap (2 ^ failures * (100 * millisecond))

backoff_base_lem : (failures : ℕ) → backoff_base (failures + 1) ≡ bound failures
unfolding backoff_base
backoff_base_lem failures = elim (Bool-cases (ltb 30 (failures + 1))) [
  | inr e ↦ ground arith
  | inl e ↦
      let high : 2 ^ 29 ≤ 2 ^ failures =
        pow-le-pow_right {n = 2} (omega arith) {i = 29} {j = failures}
          (omega (arith, ltb→lt 30 (failures + 1) e)) in
      ground (arith, high)
]

bound_pos : (failures : ℕ) → 0 < bound failures
bound_pos failures =
    let p : 1 ≤ 2 ^ failures =
      pow-le-pow_right {n = 2} (omega arith) {i = 0} {j = failures} (omega arith) in
    omega (arith, p)

-- The bound of the delay doubles with each failure from 100 ms on, up to the cap: the clamp at 30
-- failures changes nothing. The delay is below the bound if the generator draws below its
-- argument, and the clamped product is below 2^63.
pub backoff_doubles :
    (int63n : ℕ → ℕ) (failures : ℕ)
    → ((n : ℕ) → 0 < n → int63n n < n)
    → (backoff_base (failures + 1) ≡ min default_backoff_cap (2 ^ failures * (100 * millisecond)))
      × (backoff int63n (failures + 1)
          < min default_backoff_cap (2 ^ failures * (100 * millisecond)))
      × (2 ^ min failures 29 * (100 * millisecond) < 2 ^ 63)
unfolding backoff
backoff_doubles int63n failures below =
    let drawn : backoff int63n (failures + 1) < bound failures =
      rw (backoff_base_lem failures) (ground (arith, bound_pos failures, below (bound failures))) in
    let low : 2 ^ min failures 29 ≤ 2 ^ 29 =
      pow-le-pow_right {n = 2} (omega arith) {i = min failures 29} {j = 29} (omega arith) in
    (backoff_base_lem failures, drawn, omega (arith, low))
