-- ===== src/Store/Scopes/Text.antt =====
-- internal/store/sqlite.go: scopes written into a token's row and read back.
use hooks.Prelude.{
  ◌≡◌, ◌≢◌, beq_refl, refl, ok, any, find?, some, true, false, ◌++◌, ap, sym, ◌∙◌, String, List, [],
  ◌∷◌, map, Bool, not, arith, Option, none, ◌==◌, join, split_on, trim_space, keep, string_eq, Free,
  AllFree, All, split_on-join, Bool-cases, inl, inr,
}
use hooks.Store.Tokens.{
  Token, TokenRow, TokenTable, token_from_gen, row_of_token, split_scopes, insert_token, get_token,
  token_is,
}

-- A scope that a list of scopes can hold: not empty, no space around it, no comma in it.
abbrev pub IsPlain : String → Type 0
IsPlain p = (p ≢ "") × (trim_space p ≡ p) × Free b',' p

plain-AllFree : (s : List String) → All IsPlain s → AllFree b',' s
plain-AllFree [] h = tt
plain-AllFree (p ∷ s) h = (h.0.2, plain-AllFree s h.1)

keep_plain : (s : List String) → All IsPlain s → keep (λ p. not (p == "")) (map trim_space s) ≡ s
keep_plain [] h = refl
keep_plain (p ∷ s) (h, hs) = ground (arith, h.0, h.1, keep_plain s hs)

-- A text of parts that are not all empty is not empty.
join-ne : (p : String) (s : List String) → All IsPlain (p ∷ s) → join "," (p ∷ s) ≢ ""
unfolding split_on
join-ne p s h e =
    h.0.0 (ap head (sym (split_on-join "," p s (plain-AllFree (p ∷ s) h)) ∙ ap (split_on b',') e))
  where
    head : List String → String
    head [] = ""
    head (x ∷ xs) = x

split_scopes-join : (s : List String) → All IsPlain s → split_scopes (join "," s) ≡ s
unfolding split_scopes join
split_scopes-join [] h = refl
split_scopes-join (p ∷ s) h = elim (Bool-cases (join "," (p ∷ s) == "")) [
  | inl e ↦ absurd (join-ne p s h (ground arith))
  | inr e ↦ rw (e, split_on-join "," p s (plain-AllFree (p ∷ s) h)) (keep_plain (p ∷ s) h)
]

find_last :
    {A : Type 0} (p : A → Bool) (x : A) (xs : List A)
    → any p xs ≡ false
    → p x ≡ true
    → find? p (xs ++ x ∷ []) ≡ some x
find_last p x [] h q = ground arith
find_last p x (y ∷ xs) h q = ground (arith, find_last p x xs)

abbrev read_back : Option TokenRow → Option Token
read_back none = none
read_back (some r) = some (token_from_gen r)

-- What the lookup by id returns after an insertion.
abbrev pub stored : TokenTable → String → Option Token
stored rows id = read_back (get_token id rows)

-- A token that `Insert` takes is read back by its id with every field as it was given, except that
-- it is not used and not revoked; its scopes must be not empty, without commas and spaces around.
pub insert_token-stored :
    (is_user : String → Bool) (t : Token) (rows : TokenTable)
    → All IsPlain t.scopes
    → (insert_token is_user t rows).0 ≡ ok tt
    → stored (insert_token is_user t rows).1 t.id
      ≡ some (record t { last_used_at = none; revoked_at = none })
unfolding insert_token get_token token_from_gen
insert_token-stored is_user t rows h q =
    let fresh : any (token_is t.id) rows ≡ false = ground arith in
    let kept : (insert_token is_user t rows).1 ≡ rows ++ row_of_token t ∷ [] = ground arith in
    let found : get_token t.id (rows ++ row_of_token t ∷ []) ≡ some (row_of_token t) =
      find_last (token_is t.id) (row_of_token t) rows fresh (beq_refl t.id) in
    rw (kept) (
      ap read_back found
      ∙ ap (λ s. some (record t { scopes = s; last_used_at = none; revoked_at = none }))
          (split_scopes-join t.scopes h))
