-- ===== src/Users.antt =====
-- internal/users/policy.go: the password policy, over `strings.ToLower`. A text is its characters;
-- places in it are counted in bytes, as Go does.
pub mod Policy
mod Tests
use Prim.Native.Char.{Char, code, len_utf8}
use Prim.Native.String as S
use hooks.Prelude.{
  ℕ, zero, suc, ◌+◌, String, Bool, true, false, not, ◌&&◌, ◌||◌, Option, none, some, ltb, leb, ◌==◌,
  if◌then◌else◌, nat_eq, string_eq, Result, ok, err, trim_space, cut_prefix,
}

abbrev pub min_password_length : ℕ
min_password_length = 12

pub data PolicyError : Type 0 where
  too_short contains_email : PolicyError

-- `utf8.RuneCountInString`
abbrev pub rune_count : String → ℕ
rune_count S.[] = 0
rune_count (S.◌∷◌ c s) = suc (rune_count s)

abbrev pub starts_with : String → String → Bool
starts_with p s = elim (cut_prefix p s) [ none ↦ false | some _ ↦ true ]

-- `strings.Contains`
unfoldable pub contains : String → String → Bool
unfolding cut_prefix
contains S.[] sub = starts_with sub ""
contains (S.◌∷◌ c s) sub =
    let rest = contains s sub in if starts_with sub (S.◌∷◌ c s) then true else rest

-- What stands before the first `@`, with its length in bytes; `none` without one.
unfoldable pub before_at : String → Option (ℕ × String)
before_at S.[] = none
before_at (S.◌∷◌ c s) =
    let rest = before_at s in
    if code c == b'@'
    then some (0, "")
    else elim rest [ none ↦ none | some (n, local) ↦ some (len_utf8 c + n, S.◌∷◌ c local) ]

-- Whether the local part of the email is long enough to be looked for, and stands in the password.
abbrev pub contains_local : String → Option (ℕ × String) → Bool
contains_local lower none = false
contains_local lower (some (at, local)) = leb 3 at && contains lower local

-- `ValidatePassword`
unfoldable pub validate_password : (String → String) → String → String → Result PolicyError Unit
unfolding contains before_at trim_space
validate_password to_lower email pw =
    let lower = to_lower pw in
    let email_lower = to_lower (trim_space email) in
    if ltb (rune_count pw) min_password_length
    then err too_short
    else if email_lower == ""
    then ok tt
    else if contains lower email_lower
    then err contains_email
    else if contains_local lower (before_at email_lower)
    then err contains_email
    else ok tt
