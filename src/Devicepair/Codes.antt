-- ===== src/Devicepair/Codes.antt =====
-- internal/devicepair/codes.go: the codes that a user types. The random bytes are the list of what
-- the reads yield, one after the other; `none` as a result where they do not suffice.
use Prim.Native.Char.{code}
use Prim.Native.String as S
use hooks.Prelude.{
  ℕ, zero, suc, ◌*◌, ◌/◌, ◌%◌, String, List, [], ◌∷◌, Option, none, some, ltb, ◌==◌, if◌then◌else◌,
  nat_eq, string_eq, trim_space,
}

abbrev pub user_code_alphabet : String
user_code_alphabet = "23456789ABCDEFGHJKMNPQRSTUVWXYZ"

-- The number of letters of the alphabet.
abbrev pub alpha : ℕ
alpha = 31

abbrev pub limit : ℕ
limit = (256 / alpha) * alpha

abbrev pub code_len : ℕ
code_len = 8

abbrev pub letter_at : ℕ → String → String
letter_at n S.[] = ""
letter_at zero (S.◌∷◌ c s) = S.◌∷◌ c ""
letter_at (suc n) (S.◌∷◌ c s) = letter_at n s

-- One letter, and the hyphen after the fourth.
abbrev pub letter_out : ℕ → ℕ → String
letter_out produced b =
    let letter = letter_at (b % alpha) user_code_alphabet in
    if suc produced == 4 then S.◌++◌ letter "-" else letter

abbrev pub append_code : String → Option String → Option String
append_code s none = none
append_code s (some t) = some (S.◌++◌ s t)

-- The loop of `NewUserCode` from `produced` letters on, with `missing` letters to come.
unfoldable pub user_code_from : ℕ → ℕ → List ℕ → Option String
user_code_from produced zero bytes = some ""
user_code_from produced (suc missing) [] = none
user_code_from produced (suc missing) (b ∷ bytes) =
    let taken = ltb b limit in
    let rest =
      user_code_from (if taken then suc produced else produced)
        (if taken then missing else suc missing) bytes in
    if taken then append_code (letter_out produced b) rest else rest

-- `NewUserCode`
unfoldable pub new_user_code : List ℕ → Option String
unfolding user_code_from
new_user_code bytes = user_code_from 0 code_len bytes

-- `strings.ReplaceAll(in, " ", "")`
unfoldable pub without_spaces : String → String
without_spaces S.[] = ""
without_spaces (S.◌∷◌ c s) =
    let rest = without_spaces s in if code c == b' ' then rest else S.◌∷◌ c rest

-- `NormalizeUserCode`, over `strings.ToUpper`
unfoldable pub normalize_user_code : (String → String) → String → String
unfolding trim_space without_spaces
normalize_user_code to_upper s = without_spaces (to_upper (trim_space s))
