-- ===== src/Prelude/Splits.antt =====
-- `strings.Split` undoes `strings.Join` on parts without the separator; prefixes.
use Prim.Native.Char.{Char, code}
use Prim.Native.String
use Prim.Native.String.{String, [], ◌∷◌}
use Prim.Native.Nat.{ℕ}
use mathlib.Core.List as L
use mathlib.Core.Logic.{◌≢◌}
use mathlib.Core.Path.{◌≡◌, refl, sym, ap, ◌∙◌}
use native.Mathlib.Omega.{arith}
use mathlib.Core.Option.{some}
use text.Mathlib.TextEquality.{Char-path}
use text.Mathlib.TextLemmas.{nil-append, cons-append}
use hooks.Prelude.Tests.{nat_eq}
use hooks.Prelude.Text.{split_on, join, cut_prefix}

-- The separator does not occur.
abbrev pub Free : ℕ → String → Type 0
Free sep [] = Unit {0}
Free sep (c ∷ s) = (code c ≢ sep) × Free sep s

abbrev pub AllFree : ℕ → L.List String → Type 0
AllFree sep L.[] = Unit {0}
AllFree sep (L.◌∷◌ s ss) = Free sep s × AllFree sep ss

split_on-Free : (sep : ℕ) (s : String) → Free sep s → split_on sep s ≡ L.◌∷◌ s L.[]
unfolding split_on
split_on-Free sep [] f = refl
split_on-Free sep (c ∷ s) f = ground (arith, split_on-Free sep s f.1)

split_on-append :
    (sep : Char) (s t : String)
    → Free (code sep) s
    → split_on (code sep) (String.◌++◌ s (sep ∷ t)) ≡ L.◌∷◌ s (split_on (code sep) t)
unfolding split_on
split_on-append sep [] t f = rw nil-append (ground arith)
split_on-append sep (c ∷ s) t f = rw cons-append (ground (arith, split_on-append sep s t f.1))

pub split_on-join :
    (sep : Char) (s : String) (ss : L.List String)
    → AllFree (code sep) (L.◌∷◌ s ss)
    → split_on (code sep) (join (sep ∷ []) (L.◌∷◌ s ss)) ≡ L.◌∷◌ s ss
unfolding join
split_on-join sep s L.[] f = split_on-Free (code sep) s f.0
split_on-join sep s (L.◌∷◌ t ts) f =
    ap (λ u. split_on (code sep) (String.◌++◌ s u))
      (cons-append sep [] (join (sep ∷ []) (L.◌∷◌ t ts))
        ∙ ap (◌∷◌ sep) (nil-append (join (sep ∷ []) (L.◌∷◌ t ts))))
    ∙ split_on-append sep s (join (sep ∷ []) (L.◌∷◌ t ts)) f.0
    ∙ ap (L.◌∷◌ s) (split_on-join sep t ts f.1)

-- What follows a prefix.
pub cut_prefix-some : (p s rest : String) → cut_prefix p s ≡ some rest → s ≡ String.◌++◌ p rest
unfolding cut_prefix
cut_prefix-some [] s rest h = ground (arith, nil-append rest)
cut_prefix-some (c ∷ p) [] rest h = ground (arith)
cut_prefix-some (c ∷ p) (d ∷ s) rest h =
    let e : code c ≡ code d = ground arith in
    let ih = cut_prefix-some p s rest (ground arith) in
    ap (λ x. x ∷ s) (sym (Char-path c d e)) ∙ ap (◌∷◌ c) ih ∙ sym (cons-append c p rest)

pub cut_prefix-append : (p s : String) → cut_prefix p (String.◌++◌ p s) ≡ some s
unfolding cut_prefix
cut_prefix-append [] s = rw nil-append refl
cut_prefix-append (c ∷ p) s = rw cons-append (ground (arith, cut_prefix-append p s))
