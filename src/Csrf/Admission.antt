-- ===== src/Csrf/Admission.antt =====
-- internal/web/csrf.go: when the middleware passes a request on.
use hooks.Prelude.{
  ◌≡◌, ◌≢◌, ◌⊎◌, ◌↔◌, refl, inl, inr, String, true, false, Option, none, some, arith, Bool-cases,
  ◌==◌, Result, ok, err, string_eq, ◌>>=◌, ne_of_beq,
}
use hooks.Csrf.{
  Urls, Request, CsrfConfig, CsrfError, is_safe_method, hosts_match, check_host, want_host,
  check_origin, check_cookie, check_token, skips, has_session, middleware, missing_origin,
  origin_mismatch,
}

-- The host of the page that sent the request: that of `Origin`, or of `Referer` without one
abbrev pub Sender : Urls → Request → String → Type 0
Sender urls r h =
    ((r.origin ≢ "") × (urls.host_of r.origin ≡ some h))
    ⊎ ((r.origin ≡ "") × (r.referer ≢ "") × (urls.host_of r.referer ≡ some h))

abbrev pub Named : Urls → String → Option String → Type 0
Named urls want o =
    (h : String) × (o ≡ some h) × (h ≢ "") × (hosts_match urls.equal_fold h want ≡ true)

abbrev pub SameHost : Urls → String → Request → Type 0
SameHost urls want r =
    (r.origin ≢ "null")
    × ((h : String) × Sender urls r h × (h ≢ "") × (hosts_match urls.equal_fold h want ≡ true))

abbrev pub TokenMatches : Request → Type 0
TokenMatches r =
    (c : String) × (r.csrf_cookie ≡ some c)
    × (c ≢ "")
    × ((r.header_token ≡ c) ⊎ ((r.header_token ≡ "") × (r.form_token ≡ c)))

abbrev pub Bypassed : CsrfConfig → Request → Type 0
Bypassed cfg r =
    ((r.method ≡ "GET") ⊎ (r.method ≡ "HEAD") ⊎ (r.method ≡ "OPTIONS"))
    ⊎ (skips cfg.skip_func r ≡ true)
    ⊎ ((c : String) → r.session_cookie ≡ some c → c ≡ "")

check_host_iff :
    (urls : Urls) (want : String) (e : CsrfError) (o : Option String)
    → (check_host urls want e o ≡ ok tt) ↔ Named urls want o
unfolding check_host
check_host_iff urls want e none =
    (λ h. absurd (ground (arith, h)), λ w. let (g, q, n, m) = w in absurd (ground (arith, q)))
check_host_iff urls want e (some h) = (
  (λ p. (h, refl, ground (arith, p), ground (arith, p))),
  λ w. let (g, q, n, m) = w in ground (arith, q, n, m),
)

check_origin_iff :
    (urls : Urls) (r : Request) (expected : String)
    → (check_origin urls r expected ≡ ok tt) ↔ SameHost urls (want_host expected r) r
unfolding check_origin
check_origin_iff urls r expected = (to, back)
  where
    want : String
    want = want_host expected r

    to : check_origin urls r expected ≡ ok tt → SameHost urls want r
    to p = elim (Bool-cases (r.origin == "")) [
      | inl e ↦
          let (h, q, n, m) =
            (check_host_iff urls want missing_origin (urls.host_of r.referer)).0
              (ground (arith, p, e)) in
          (ground (arith, p, e), (h, inr (ground (arith, e), ground (arith, p, e), q), n, m))
      | inr e ↦
          let (h, q, n, m) =
            (check_host_iff urls want origin_mismatch (urls.host_of r.origin)).0
              (ground (arith, p, e)) in
          (ground (arith, p, e), (h, inl (ne_of_beq r.origin "" e, q), n, m))
    ]

    back : SameHost urls want r → check_origin urls r expected ≡ ok tt
    back (a, (h, inl (b, q), n, m)) =
        let w = (check_host_iff urls want origin_mismatch (urls.host_of r.origin)).1 (h, q, n, m) in
        ground (arith, a, b, w)
    back (a, (h, inr (b, c, q), n, m)) =
        let w = (check_host_iff urls want missing_origin (urls.host_of r.referer)).1 (h, q, n, m) in
        ground (arith, a, b, c, w)

check_cookie_iff :
    (r : Request) (o : Option String)
    → (check_cookie r o ≡ ok tt) ↔ (
        (c : String) × (o ≡ some c)
        × (c ≢ "")
        × ((r.header_token ≡ c) ⊎ ((r.header_token ≡ "") × (r.form_token ≡ c))))
unfolding check_cookie
check_cookie_iff r none =
    (λ h. absurd (ground (arith, h)), λ w. let (g, q, n, m) = w in absurd (ground (arith, q)))
check_cookie_iff r (some c) = (
  (λ p. (c, refl, ground (arith, p), ground (arith, p))),
  λ w. let (g, q, n, m) = w in ground (arith, q, n, m),
)

is_safe_method_iff :
    (m : String) → (is_safe_method m ≡ true) ↔ ((m ≡ "GET") ⊎ (m ≡ "HEAD") ⊎ (m ≡ "OPTIONS"))
unfolding is_safe_method
is_safe_method_iff m = (λ h. ground (arith, h), λ h. ground (arith, h))

has_session_iff :
    (o : Option String) → (has_session o ≡ false) ↔ ((c : String) → o ≡ some c → c ≡ "")
has_session_iff none = (λ h c q. absurd (ground (arith, q)), λ h. refl)
has_session_iff (some c) = (λ h d q. ground (arith, h, q), λ h. ground (arith, h c refl))

both_ok :
    {A : Type 0} (x y : Result CsrfError Unit) (v : A)
    → ((x >>= λ _. y >>= λ _. ok v) ≡ ok v) ↔ ((x ≡ ok tt) × (y ≡ ok tt))
both_ok (err e) y v = (λ h. absurd (ground (arith, h)), λ h. absurd (ground (arith, h.0)))
both_ok (ok _) (err e) v = (λ h. absurd (ground (arith, h)), λ h. absurd (ground (arith, h.1)))
both_ok (ok _) (ok _) v = (λ h. (refl, refl), λ h. refl)

-- The middleware passes a request on to the next handler exactly when the request bypasses it (a safe
-- method, the configured exception, or no session cookie) or else the host of its `Origin`, or of its
-- `Referer` where that is empty, matches the expected host, with an origin other than `null`, and the
-- token of the header, or of the form where the header has none, is the non-empty CSRF cookie; a
-- token in a JSON body is not one of these.
pub middleware_iff :
    {A : Type 0} (urls : Urls) (cfg : CsrfConfig) (next : Request → A) (r : Request)
    → (middleware urls cfg next r ≡ ok (next r))
      ↔ (Bypassed cfg r ⊎ (SameHost urls (want_host cfg.expected_host r) r × TokenMatches r))
unfolding middleware check_token
middleware_iff urls cfg next r = (to, back)
  where
    origin : Result CsrfError Unit
    origin = check_origin urls r cfg.expected_host

    checks : Type 0
    checks = SameHost urls (want_host cfg.expected_host r) r × TokenMatches r

    checked : (origin >>= λ _. check_token r >>= λ _. ok (next r)) ≡ ok (next r) ↔ checks
    checked = (
      (λ h.
          let (p, q) = (both_ok origin (check_token r) (next r)).0 h in
          (
            (check_origin_iff urls r cfg.expected_host).0 p,
            (check_cookie_iff r r.csrf_cookie).0 q,
          )),
      λ w. (both_ok origin (check_token r) (next r)).1 (
        (check_origin_iff urls r cfg.expected_host).1 w.0,
        (check_cookie_iff r r.csrf_cookie).1 w.1,
      ),
    )

    to : middleware urls cfg next r ≡ ok (next r) → Bypassed cfg r ⊎ checks
    to h = elim (Bool-cases (is_safe_method r.method)) [
      | inl e ↦ inl (inl ((is_safe_method_iff r.method).0 e))
      | inr e ↦ elim (Bool-cases (skips cfg.skip_func r)) [
        | inl f ↦ inl (inr (inl f))
        | inr f ↦ elim (Bool-cases (has_session r.session_cookie)) [
          | inl g ↦ inr (checked.0 (rw (e, f, g) at h))
          | inr g ↦ inl (inr (inr ((has_session_iff r.session_cookie).0 g)))
        ]
      ]
    ]

    back : Bypassed cfg r ⊎ checks → middleware urls cfg next r ≡ ok (next r)
    back (inl (inl m)) = let e = (is_safe_method_iff r.method).1 m in ground (arith, e)
    back (inl (inr (inl f))) = ground (arith, f)
    back (inl (inr (inr none_set))) =
        let g = (has_session_iff r.session_cookie).1 none_set in ground (arith, g)
    back (inr w) = let q = checked.1 w in ground (arith, q)
