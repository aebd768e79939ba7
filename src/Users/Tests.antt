-- ===== src/Users/Tests.antt =====
-- Concrete passwords, and the theorem applied to one.
use hooks.Prelude.{
  ℕ, ◌≤◌, ◌≡◌, ◌≢◌, refl, String, some, err, trim_space, String-discrete, ℕ_discrete,
}
use hooks.Users.{rune_count, before_at, validate_password, contains_email, too_short}
use hooks.Users.Policy.{Within, validate_password_iff}

abbrev same : String → String
same s = s

short : validate_password same "ann@x.org" "elevenchars" ≡ err too_short
unfolding validate_password
short = refl

with_local : validate_password same "ann@x.org" "joannas secret" ≡ err contains_email
unfolding validate_password String-discrete ℕ_discrete
with_local = refl

validate_password_iff_example :
    (12 ≤ rune_count "correct horse")
    × (same (trim_space "ann@x.org") ≢ ""
        → Within (same (trim_space "ann@x.org")) (same "correct horse")
        → ⊥)
    × ((at : ℕ) (local : String)
        → before_at (same (trim_space "ann@x.org")) ≡ some (at, local)
        → 3 ≤ at
        → Within local (same "correct horse")
        → ⊥)
unfolding validate_password String-discrete ℕ_discrete
validate_password_iff_example = (validate_password_iff same "ann@x.org" "correct horse").0 refl
