-- ===== src/Auth/Sessions.antt =====
-- internal/auth/sessions.go: which cookies `Lookup` takes, and what it does to the table.
use Prim.Native.Char.{Char, code}
use Prim.Native.String as S
use text.Mathlib.TextEquality.{Char-path}
use text.Mathlib.TextLemmas.{nil-append, cons-append}
use hooks.Prelude.{
  ℕ, ◌+◌, ◌*◌, ◌^◌, ◌<◌, ◌⊎◌, ◌≤◌, ◌≡◌, ◌≢◌, refl, sym, ap, ◌∙◌, subst, inl, inr, String, List,
  Bool, ◌&&◌, true, false, ◌||◌, Option, none, some, arith, ltb, ◌==◌, ok, Bool-cases, string_eq,
  nat_eq, ℕ_discrete, eq_of_beq, ne_of_beq, cut, Free,
}
use hooks.Store.Users.{User, get_user_by_id, is_activated}
use hooks.Store.Sessions.{Session, SessionTable, get_session, touch_session}
use hooks.Store.Rows.{set_where}
use hooks.Auth.{is_stale, cookie_of, slid, slide, lookup_user, lookup_session, lookup_parts, lookup}

dot_cookie : (after : String) → S.◌∷◌ "." after ≡ cookie_of "" after
dot_cookie after =
    rw (nil-append (S.◌++◌ "." after), cons-append "." S.[] after, nil-append after) refl

IsCut : String → String → String → Type 0
IsCut s before after = (s ≡ cookie_of before after) × Free b'.' before

-- One character more of a cookie: the dot, or one of the first half.
IsCut-dot : (c : Char) (s : String) → code c ≡ b'.' → IsCut (S.◌∷◌ c s) "" s
unfolding IsCut
IsCut-dot c s e = (ap (λ x. S.◌∷◌ x s) (Char-path c "." e) ∙ dot_cookie s, tt)

IsCut-more :
    (c : Char) (s before after : String)
    → code c ≢ b'.'
    → IsCut s before after
    → IsCut (S.◌∷◌ c s) (S.◌∷◌ c before) after
unfolding IsCut
IsCut-more c s before after n (e, f) =
    (ap (S.◌∷◌ c) e ∙ sym (cons-append c before (S.◌++◌ "." after)), (n, f))

-- The two halves of a cookie: no dot stands in the first.
cut-IsCut : (s before after : String) → cut b'.' s ≡ some (before, after) → IsCut s before after
unfolding cut
cut-IsCut S.[] before after h = absurd (ground (arith, h))
cut-IsCut (S.◌∷◌ c s) before after h = elim (Bool-cases (code c == b'.')) [
  | inl e ↦
      let p : before ≡ "" = ground (arith, e, h) in
      let q : s ≡ after = ground (arith, e, h) in
      subst (λ x. IsCut (S.◌∷◌ c s) x after) (sym p)
        (subst (IsCut (S.◌∷◌ c s) "") q (IsCut-dot c s (eq_of_beq (code c) b'.' e)))
  | inr e ↦ inner (cut b'.' s) refl (cut-IsCut s) e
]
  where
    inner :
        (o : Option (String × String))
        → cut b'.' s ≡ o
        → ((x y : String) → cut b'.' s ≡ some (x, y) → IsCut s x y)
        → (code c == b'.') ≡ false
        → IsCut (S.◌∷◌ c s) before after
    inner none q ih e = absurd (ground (arith, e, h, q))
    inner (some (x, y)) q ih e =
        let p : before ≡ S.◌∷◌ c x = ground (arith, e, h, q) in
        let r : y ≡ after = ground (arith, e, h, q) in
        subst (λ z. IsCut (S.◌∷◌ c s) z after) (sym p)
          (subst (IsCut (S.◌∷◌ c s) (S.◌∷◌ c x)) r
            (IsCut-more c s x y (ne_of_beq (code c) b'.' e) (ih x y q)))

some-cut :
    (before after : String)
    → Free b'.' before
    → cut b'.' (cookie_of before after) ≡ some (before, after)
unfolding cut ℕ_discrete
some-cut S.[] after f =
    rw (nil-append (S.◌++◌ "." after), cons-append "." S.[] after, nil-append after) refl
some-cut (S.◌∷◌ c before) after f =
    rw (cons-append c before (S.◌++◌ "." after)) (ground (arith, f.0, some-cut before after f.1))

-- What a cookie that is taken shows: its halves, the row of its session and the user.
abbrev pub Valid :
    (String → String) → ℕ → List User → String → SessionTable → Session → User → Type 0
Valid hash now users cookie rows s u =
    (id plaintext : String) × (cookie ≡ cookie_of id plaintext)
    × Free b'.' id
    × (id ≢ "")
    × (plaintext ≢ "")
    × (get_session id rows ≡ some s)
    × (hash plaintext ≡ s.secret_hash)
    × (now ≤ s.expires_at)
    × (get_user_by_id s.user_id users ≡ some u)
    × (u.deactivated_at ≡ none)

lookup_user-ok :
    (written : Bool) (now ttl : ℕ) (s t : Session) (rows : SessionTable) (u : User)
    (o : Option User)
    → (lookup_user written now ttl s rows o).0 ≡ ok (u, t)
    → (o ≡ some u) × (u.deactivated_at ≡ none) × (t ≡ slid written now ttl s)
unfolding lookup_user
lookup_user-ok written now ttl s t rows u none h = absurd (ground (arith, h))
lookup_user-ok written now ttl s t rows u (some v) h =
    let active : is_activated v ≡ true = ground arith in
    let same : v ≡ u = ground (arith, h, active) in
    (
      ap some same,
      subst (λ x. x.deactivated_at ≡ none) same (ground (arith, active)),
      ground (arith, h, active),
    )

lookup_session-ok :
    (written : Bool) (hash : String → String) (plaintext : String) (now ttl : ℕ) (users : List User)
    (rows : SessionTable) (t : Session) (u : User) (o : Option Session)
    → (lookup_session written hash plaintext now ttl users rows o).0 ≡ ok (u, t)
    → (s : Session) × (o ≡ some s)
      × (hash plaintext ≡ s.secret_hash)
      × (now ≤ s.expires_at)
      × (get_user_by_id s.user_id users ≡ some u)
      × (u.deactivated_at ≡ none)
      × (t ≡ slid written now ttl s)
unfolding lookup_session
lookup_session-ok written hash plaintext now ttl users rows t u none h = absurd (ground (arith, h))
lookup_session-ok written hash plaintext now ttl users rows t u (some s) h =
    let secret : (hash plaintext == s.secret_hash) ≡ true = ground arith in
    let in_time : ltb s.expires_at now ≡ false = ground (arith, secret) in
    let (found, active, moved) =
      lookup_user-ok written now ttl s t rows u (get_user_by_id s.user_id users)
        (rw (secret, in_time) at h) in
    (s, refl, eq_of_beq (hash plaintext) s.secret_hash secret, ground arith, found, active, moved)

lookup_parts-ok :
    (written : Bool) (hash : String → String) (now ttl : ℕ) (users : List User) (cookie : String)
    (rows : SessionTable) (t : Session) (u : User) (o : Option (String × String))
    → cut b'.' cookie ≡ o
    → (lookup_parts written hash now ttl users rows o).0 ≡ ok (u, t)
    → (s : Session) × Valid hash now users cookie rows s u × (t ≡ slid written now ttl s)
unfolding lookup_parts IsCut
lookup_parts-ok written hash now ttl users cookie rows t u none q h = absurd (ground (arith, h))
lookup_parts-ok written hash now ttl users cookie rows t u (some (id, plaintext)) q h =
    let given : (id == "" || plaintext == "") ≡ false = ground arith in
    let (s, found, secret, in_time, owner, active, moved) =
      lookup_session-ok written hash plaintext now ttl users rows t u (get_session id rows)
        (rw given at h) in
    let (e, f) = cut-IsCut cookie id plaintext q in
    (
      s,
      (
        id,
        plaintext,
        e,
        f,
        ne_of_beq id "" (ground (arith, given)),
        ne_of_beq plaintext "" (ground (arith, given)),
        found,
        secret,
        in_time,
        owner,
        active,
      ),
      moved,
    )

-- What a cookie that is taken does to its session and to the table: a session that was not used for
-- an hour gets a full lifetime from now, if the write succeeds, and otherwise nothing changes.
abbrev pub Moved : Bool → ℕ → ℕ → SessionTable → Session → Session → SessionTable → Type 0
Moved written now ttl rows s t after =
    (written ≡ true
      → s.last_used_at + 3600 * 10 ^ 9 ≤ now
      → (t ≡ record s { last_used_at = now; expires_at = now + ttl })
        × (after
            ≡ set_where (λ r. r.id == s.id)
                (λ r. record r { last_used_at = now; expires_at = now + ttl }) rows))
    × (written ≡ false ⊎ (now < s.last_used_at + 3600 * 10 ^ 9) → (t ≡ s) × (after ≡ rows))

slid-Moved :
    (written : Bool) (now ttl : ℕ) (rows : SessionTable) (s : Session)
    → Moved written now ttl rows s (slid written now ttl s) (slide written now ttl s rows)
unfolding slide touch_session
slid-Moved written now ttl rows s = elim (Bool-cases (is_stale now s && written)) [
  | inl e ↦ rw e ((λ w h. (refl, refl)), λ h. absurd (ground (arith, e, h)))
  | inr e ↦ rw e ((λ w h. absurd (ground (arith, e, w, h))), λ h. (refl, refl))
]

lookup-Valid :
    (written : Bool) (hash : String → String) (now ttl : ℕ) (users : List User) (cookie : String)
    (rows : SessionTable) (s : Session) (u : User)
    → Valid hash now users cookie rows s u
    → lookup written hash now ttl users cookie rows
      ≡ (ok (u, slid written now ttl s), slide written now ttl s rows)
unfolding lookup lookup_parts lookup_session lookup_user
lookup-Valid written hash now ttl users cookie rows s u
      (id, plaintext, e, f, n, m, found, secret, in_time, owner, active) =
    let halves : cut b'.' cookie ≡ some (id, plaintext) =
      ap (cut b'.') e ∙ some-cut id plaintext f in
    let given : (id == "" || plaintext == "") ≡ false = ground (arith, n, m) in
    let same : (hash plaintext == s.secret_hash) ≡ true = ground (arith, secret) in
    let timely : ltb s.expires_at now ≡ false = ground arith in
    let on : is_activated u ≡ true = ground (arith, active) in
    rw halves (rw (given, found) (rw (same, timely, owner) (rw on refl)))

-- `Lookup` takes a cookie exactly when its first half names a session that is not past its expiry,
-- its second half hashes to the session's secret, and the session's user exists and is active; it
-- then returns that user with the session. If the session was not used for an hour and the write
-- succeeds, that session and its row get this use and a full lifetime from now; if it was used
-- within the hour or the write fails, both are as they were.
pub lookup_iff :
    (written : Bool) (hash : String → String) (now ttl : ℕ) (users : List User) (cookie : String)
    (rows : SessionTable) (u : User)
    → ((s : Session)
        → Valid hash now users cookie rows s u
        → (t : Session) × ((lookup written hash now ttl users cookie rows).0 ≡ ok (u, t))
          × Moved written now ttl rows s t (lookup written hash now ttl users cookie rows).1)
      × ((t : Session)
          → (lookup written hash now ttl users cookie rows).0 ≡ ok (u, t)
          → (s : Session) × Valid hash now users cookie rows s u
            × Moved written now ttl rows s t (lookup written hash now ttl users cookie rows).1)
lookup_iff written hash now ttl users cookie rows u = (
  (λ s v.
      let same = lookup-Valid written hash now ttl users cookie rows s u v in
      (
        slid written now ttl s,
        ap (λ r. r.0) same,
        subst (Moved written now ttl rows s (slid written now ttl s)) (sym (ap (λ r. r.1) same))
            (slid-Moved written now ttl rows s),
      )),
  λ t h.
      let (s, v, moved) =
        lookup_parts-ok written hash now ttl users cookie rows t u (cut b'.' cookie) refl
          (unfold lookup in h) in
      let same = lookup-Valid written hash now ttl users cookie rows s u v in
      (
        s,
        v,
        subst (Moved written now ttl rows s t) (sym (ap (λ r. r.1) same)) (
            subst (λ x. Moved written now ttl rows s x (slide written now ttl s rows)) (sym moved)
              (slid-Moved written now ttl rows s)),
      ),
)
