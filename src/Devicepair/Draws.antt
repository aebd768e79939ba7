-- ===== src/Devicepair/Draws.antt =====
-- internal/devicepair/codes.go: a user code is spelled by the first bytes that are not rejected, and
-- every letter is as likely as any other.
use Prim.Native.String as S
use text.Mathlib.TextLemmas.{append_assoc}
use hooks.Prelude.{
  ℕ, zero, suc, ◌%◌, ◌<◌, ◌≡◌, refl, inl, inr, String, List, [], ◌∷◌, true, Option, none, some, ltb,
  ◌==◌, if◌then◌else◌, nat_eq, eq_of_beq, string_eq, String-discrete, keep, take, drop, length,
  Bool, ap, ◌∙◌, false, all, all-Has, Has, arith, Bool-cases, ℕ_discrete,
}
use hooks.Devicepair.Codes.{
  limit, code_len, letter_at, letter_out, user_code_alphabet, append_code, user_code_from,
  new_user_code,
}

-- The bytes that are not rejected.
abbrev pub accepted : List ℕ → List ℕ
accepted = keep λ b. ltb b 248

-- The alphabet of the codes, which has no 0, 1, I, L and O but has every other digit and letter.
abbrev pub letters : List String
letters =
    "2" ∷ "3" ∷ "4" ∷ "5" ∷ "6" ∷ "7" ∷ "8" ∷ "9" ∷ "A" ∷ "B" ∷ "C" ∷ "D" ∷ "E" ∷ "F" ∷ "G" ∷ "H"
    ∷ "J" ∷ "K" ∷ "M" ∷ "N" ∷ "P" ∷ "Q" ∷ "R" ∷ "S" ∷ "T" ∷ "U" ∷ "V" ∷ "W" ∷ "X" ∷ "Y" ∷ "Z" ∷ []

abbrev pub nth : List String → ℕ → String
nth [] n = ""
nth (s ∷ ss) zero = s
nth (s ∷ ss) (suc n) = nth ss n

-- The letters that some bytes pick, in front of a text.
abbrev pub picked : List ℕ → String → String
picked [] rest = rest
picked (b ∷ bytes) rest = S.◌++◌ (nth letters (b % 31)) (picked bytes rest)

-- The letters of some bytes as the loop writes them, with the hyphen.
abbrev spelled : ℕ → List ℕ → String
spelled produced [] = ""
spelled produced (b ∷ bytes) = S.◌++◌ (letter_out produced b) (spelled (suc produced) bytes)

append_found :
    (n m : ℕ) (s t : String) (o : Option String)
    → o ≡ (if ltb n m then none else some t)
    → append_code s o ≡ (if ltb (suc n) (suc m) then none else some (S.◌++◌ s t))
append_found n m s t o h = elim (Bool-cases (ltb n m)) [
  | inl e ↦ rw (h, e) (ground arith)
  | inr e ↦ rw (h, e) (ground arith)
]

user_code_from-spelled :
    (produced missing : ℕ) (bytes : List ℕ)
    → user_code_from produced missing bytes ≡ (
        if ltb (length (accepted bytes)) missing
        then none
        else some (spelled produced (take missing (accepted bytes))))
unfolding user_code_from
user_code_from-spelled produced zero bytes = ground arith
user_code_from-spelled produced (suc missing) [] = ground arith
user_code_from-spelled produced (suc missing) (b ∷ bytes) = elim (Bool-cases (ltb b limit)) [
  | inl e ↦ rw e (
      append_found (length (accepted bytes)) missing (letter_out produced b)
        (spelled (suc produced) (take missing (accepted bytes)))
        (user_code_from (suc produced) missing bytes)
        (user_code_from-spelled (suc produced) missing bytes))
  | inr e ↦ rw e (user_code_from-spelled produced (suc missing) bytes)
]

abbrev below : ℕ → List ℕ
below zero = []
below (suc n) = n ∷ below n

below-Has : (k n : ℕ) → k < n → Has k (below n)
below-Has k zero h = absurd (omega (arith, h))
below-Has k (suc n) h = elim (Bool-cases (n == k)) [
  | inl e ↦ inl (ground arith)
  | inr e ↦ inr (below-Has k n (ground arith))
]

same_letters : all (λ n. letter_at n user_code_alphabet == nth letters n) (below 31) ≡ true
unfolding String-discrete
same_letters = refl

letter_at-nth : (b : ℕ) → letter_at (b % 31) user_code_alphabet ≡ nth letters (b % 31)
letter_at-nth b = eq_of_beq (letter_at (b % 31) user_code_alphabet) (nth letters (b % 31)) (
    all-Has (λ n. letter_at n user_code_alphabet == nth letters n) (below 31) same_letters
      (below-Has (b % 31) 31 (omega arith)))

-- After the hyphen the letters stand alone.
spelled_after : (n : ℕ) (bytes : List ℕ) → spelled (suc (suc (suc (suc n)))) bytes ≡ picked bytes ""
spelled_after n [] = refl
spelled_after n (b ∷ bytes) =
    let after : (suc (suc (suc (suc (suc n)))) == 4) ≡ false = ground arith in
    rw (after, letter_at-nth b) (ap (S.◌++◌ (nth letters (b % 31))) (spelled_after (suc n) bytes))

-- Eight bytes are spelled in two groups of four.
spelled-picked :
    (bytes : List ℕ)
    → ltb (length bytes) 8 ≡ false
    → spelled 0 (take 8 bytes)
      ≡ picked (take 4 bytes) (S.◌++◌ "-" (picked (take 4 (drop 4 bytes)) ""))
unfolding ℕ_discrete
spelled-picked [] l = absurd (ground (arith, l))
spelled-picked (a ∷ []) l = absurd (ground (arith, l))
spelled-picked (a ∷ b ∷ []) l = absurd (ground (arith, l))
spelled-picked (a ∷ b ∷ c ∷ []) l = absurd (ground (arith, l))
spelled-picked (a ∷ b ∷ c ∷ d ∷ bytes) l =
    rw
      (
        spelled_after 0 (take 4 bytes),
        letter_at-nth a,
        letter_at-nth b,
        letter_at-nth c,
        letter_at-nth d,
      )
      (ap
        (λ t.
          S.◌++◌ (nth letters (a % 31))
            (S.◌++◌ (nth letters (b % 31)) (S.◌++◌ (nth letters (c % 31)) t)))
        (append_assoc (nth letters (d % 31)) "-" (picked (take 4 bytes) "")))

gives : ℕ → Option String → Bool
gives k none = false
gives k (some s) = s == nth letters k

-- How many of the 256 bytes make the loop write a letter of the alphabet as the last of a code.
unfoldable pub chances : ℕ → ℕ
unfolding String-discrete ℕ_discrete user_code_from gives
chances k = length (keep (λ b. gives k (user_code_from 7 1 (b ∷ []))) (below 256))

eight_each : all (λ k. chances k == 8) (below 31) ≡ true
unfolding chances
eight_each = refl

-- From any bytes of which eight or more are below 248, `NewUserCode` returns the letters that the
-- first four of those pick, a hyphen, and the letters that the next four pick, and from fewer it
-- returns nothing; and for each of the 31 letters exactly eight of the 256 bytes make the loop write
-- it as the last letter of a code.
pub new_user_code_even :
    (bytes : List ℕ) (k : ℕ)
    → k < 31
    → (new_user_code bytes ≡ (
        if ltb (length (accepted bytes)) 8
        then none
        else some (
            picked
              (take 4 (accepted bytes))
              (S.◌++◌ "-" (picked (take 4 (drop 4 (accepted bytes))) "")))))
      × (chances k ≡ 8)
unfolding new_user_code
new_user_code_even bytes k h = (
  user_code_from-spelled 0 code_len bytes ∙ grouped,
  eq_of_beq (chances k) 8 (all-Has (λ x. chances x == 8) (below 31) eight_each (below-Has k 31 h)),
)
  where
    grouped :
        (if ltb (length (accepted bytes)) 8
          then none
          else some (spelled 0 (take 8 (accepted bytes))))
        ≡ (if ltb (length (accepted bytes)) 8
            then none
            else some (
                picked
                  (take 4 (accepted bytes))
                  (S.◌++◌ "-" (picked (take 4 (drop 4 (accepted bytes))) ""))))
    grouped = elim (Bool-cases (ltb (length (accepted bytes)) 8)) [
      | inl e ↦ rw e refl
      | inr e ↦ rw e (ap some (spelled-picked (accepted bytes) e))
    ]
