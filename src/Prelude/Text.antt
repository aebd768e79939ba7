-- ===== src/Prelude/Text.antt =====
-- The functions of Go's `strings` and `strconv` that the program uses, over native strings.
use Prim.Native.Char.{Char, code}
use Prim.Native.String
use Prim.Native.String.{String, [], ◌∷◌}
use Prim.Native.Nat.{ℕ, zero, suc, ◌+◌, ◌-◌, ◌*◌}
use mathlib.Core.Bool.{Bool, true, false, ◌&&◌, ◌||◌}
use mathlib.Core.List as L
use mathlib.Core.Option.{Option, none, some}
use native.Mathlib.Decide.{ℕ_discrete}
use hooks.Prelude.Tests.{if◌then◌else◌, leb, ◌==◌, string_eq, nat_eq, String-discrete}
use hooks.Prelude.Int.{ℤ, pos, negsuc}

-- `unicode.IsSpace`
unfoldable pub is_space : ℕ → Bool
is_space c =
    (leb 9 c && leb c 13)
    || c == 32
    || c == 0x85
    || c == 0xA0
    || c == 0x1680
    || (leb 0x2000 c && leb c 0x200a)
    || c == 0x2028
    || c == 0x2029
    || c == 0x202f
    || c == 0x205f
    || c == 0x3000

unfoldable pub trim_left : String → String
trim_left [] = []
trim_left (c ∷ s) = let rest = trim_left s in if is_space (code c) then rest else c ∷ s

unfoldable pub trim_right : String → String
trim_right [] = []
trim_right (c ∷ s) =
    let rest = trim_right s in if rest == "" && is_space (code c) then [] else c ∷ rest

-- `strings.TrimSpace`
unfoldable pub trim_space : String → String
unfolding trim_left trim_right is_space String-discrete
trim_space s = trim_right (trim_left s)

-- The decimal digits of a text; `none` where another character stands.
unfoldable pub digits_from : ℕ → String → Option ℕ
digits_from acc [] = some acc
digits_from acc (c ∷ s) =
    let rest = digits_from (acc * 10 + (code c - 48)) s in
    if leb 48 (code c) && leb (code c) 57 then rest else none

unfoldable pub parse_digits : String → Option ℕ
unfolding digits_from
parse_digits [] = none
parse_digits (c ∷ s) = digits_from 0 (c ∷ s)

abbrev pub max_int64 : ℕ
max_int64 = 9223372036854775807

abbrev pub negate : ℕ → ℤ
negate zero = pos 0
negate (suc n) = negsuc n

abbrev in_int64 : Bool → ℕ → Option ℤ
in_int64 false n = if leb n max_int64 then some (pos n) else none
in_int64 true n = if leb n (max_int64 + 1) then some (negate n) else none

abbrev checked : Bool → Option ℕ → Option ℤ
checked negative none = none
checked negative (some n) = in_int64 negative n

-- `strconv.ParseInt(s, 10, 64)`; `none` is a syntax or a range error.
unfoldable pub parse_int : String → Option ℤ
unfolding parse_digits
parse_int [] = none
parse_int (c ∷ s) =
    if code c == b'-'
    then checked true (parse_digits s)
    else if code c == b'+'
    then checked false (parse_digits s)
    else checked false (parse_digits (c ∷ s))

unfoldable pub last_segment_from : String → String → String
last_segment_from best [] = best
last_segment_from best (c ∷ s) = last_segment_from (if code c == b'/' then s else best) s

-- `p[strings.LastIndex(p, "/") + 1:]`, and `p` where it has no slash
unfoldable pub last_path_segment : String → String
unfolding last_segment_from ℕ_discrete
last_path_segment p = last_segment_from p p

-- `strings.Join`
unfoldable pub join : String → L.List String → String
join sep L.[] = []
join sep (L.◌∷◌ s L.[]) = s
join sep (L.◌∷◌ s (L.◌∷◌ t ts)) = String.◌++◌ s (String.◌++◌ sep (join sep (L.◌∷◌ t ts)))

-- The first bytes of a text; a text stands for its bytes, one character each.
abbrev pub take_text : ℕ → String → String
take_text zero s = []
take_text (suc n) [] = []
take_text (suc n) (c ∷ s) = c ∷ take_text n s

abbrev pub cons_part : Char → L.List String → L.List String
cons_part c L.[] = L.◌∷◌ (c ∷ []) L.[]
cons_part c (L.◌∷◌ p ps) = L.◌∷◌ (c ∷ p) ps

-- `strings.Split` at one character
unfoldable pub split_on : ℕ → String → L.List String
split_on sep [] = L.◌∷◌ [] L.[]
split_on sep (c ∷ s) =
    let rest = split_on sep s in if code c == sep then L.◌∷◌ [] rest else cons_part c rest

-- What follows a prefix; `none` where the text does not start with it.
unfoldable pub cut_prefix : String → String → Option String
cut_prefix [] s = some s
cut_prefix (c ∷ p) [] = none
cut_prefix (c ∷ p) (d ∷ s) = let rest = cut_prefix p s in if code c == code d then rest else none

-- `strings.Cut` at one character; `none` where it does not occur.
unfoldable pub cut : ℕ → String → Option (String × String)
cut sep [] = none
cut sep (c ∷ s) =
    let rest = cut sep s in
    if code c == sep
    then some ([], s)
    else elim rest [ none ↦ none | some (before, after) ↦ some (c ∷ before, after) ]
