-- ===== src/Sources/Render.antt =====
-- internal/sources/render.go. The standard-webhooks library is a parameter: its webhooks, their
-- constructors, the names of the headers, and `VerifyIgnoringTimestamp`.
use text.Mathlib.Text.{starts_with}
use hooks.Prelude.{
  ℕ, ◌+◌, ◌*◌, ◌≤◌, ◌≡◌, refl, ◌≢◌, ◌↔◌, inl, inr, String, subst, ℤ, pos, negsuc, ltb_ℤ, ◌-ℤ◌,
  pos_part, neg_part, negate, List, ◌||◌, Option, none, some, arith, ◌==◌, if◌then◌else◌, Result,
  ok, err, ◌>>=◌, parse_int, string_eq, nat_eq, Option-cases, ◌^◌,
}
use hooks.Sources.{
  HttpHeaders, header_get, VerifyError, invalid_signature, stale_timestamp, missing_header,
  malformed_header, other, Verifier, Options, second, default_skew_window, Factory,
}

pub data WebhookError : Type 0 where
  required_headers invalid_headers no_matching_signature failed : WebhookError

pub record StandardWebhooks (Webhook : Type 0) : Type 0 where
  pub new_webhook : String → Option Webhook
  pub new_webhook_raw : String → Option Webhook
  pub header_webhook_id : String
  pub header_webhook_timestamp : String
  pub header_webhook_signature : String
  -- `none` is a nil error.
  pub verify_ignoring_timestamp : Webhook → List ℕ → HttpHeaders → Option WebhookError

module _ {Webhook : Type 0} (lib : StandardWebhooks Webhook) where
  open lib use {
    new_webhook, new_webhook_raw, header_webhook_id, header_webhook_timestamp,
    header_webhook_signature, verify_ignoring_timestamp,
  }

  pub build_webhook : String → Option Webhook
  build_webhook secret =
      if starts_with secret "whsec_" then new_webhook secret else new_webhook_raw secret

  -- `time.Unix(tsNum, 0)` in nanoseconds
  pub unix_time : ℤ → ℤ
  unix_time (pos s) = pos (s * second)
  unix_time (negsuc s) = negate (s * second + second)

  pub classify : Option WebhookError → Result VerifyError Unit
  classify none = ok tt
  classify (some required_headers) = err missing_header
  classify (some invalid_headers) = err malformed_header
  classify (some no_matching_signature) = err invalid_signature
  classify (some failed) = err other

  require_header : String → Result VerifyError String
  require_header value = if value == "" then err missing_header else ok value

  parse_timestamp : Option ℤ → Result VerifyError ℤ
  parse_timestamp none = err malformed_header
  parse_timestamp (some t) = ok t

  built : Option Webhook → Result VerifyError Webhook
  built none = err other
  built (some wh) = ok wh

  -- `delta` is exact: the saturation of `Time.Sub` starts beyond every window.
  check_skew : ℕ → ℕ → ℤ → String → Result VerifyError (ℤ × String)
  check_skew skew now time id =
      let delta : ℤ = pos now -ℤ time in
      if ltb_ℤ delta (negate skew) || ltb_ℤ (pos skew) delta
      then err stale_timestamp
      else ok (time, id)

  -- `renderVerifier.Verify`
  pub verify : Option Webhook → ℕ → ℕ → Verifier
  unfolding require_header parse_timestamp built classify check_skew unix_time
  verify webhook skew now headers body = do
    wh ← built webhook
    id ← require_header (header_get header_webhook_id headers)
    raw ← require_header (header_get header_webhook_timestamp headers)
    signature ← require_header (header_get header_webhook_signature headers)
    seconds ← parse_timestamp (parse_int raw)
    verified ← classify (verify_ignoring_timestamp wh body headers)
    check_skew skew now (unix_time seconds) id

  abbrev pub skew_of : Options → ℕ
  skew_of opts = if opts.skew_window == 0 then default_skew_window else opts.skew_window

  pub new_render_verifier : Factory
  unfolding verify build_webhook
  new_render_verifier secret opts = verify (build_webhook secret) (skew_of opts) opts.now

  check_skew_iff :
      (skew now : ℕ) (time t : ℤ) (id j : String)
      → (check_skew skew now time id ≡ ok (t, j)) ↔ (
          (time ≡ t)
          × (id ≡ j)
          × (now + neg_part t ≤ pos_part t + skew)
          × (pos_part t ≤ now + neg_part t + skew))
  unfolding check_skew
  check_skew_iff skew now time t id j = (λ h. ground arith, λ h. ground arith)

  -- What a delivery must show to be accepted with a time and an id.
  pub record Accepted (wh : Webhook) (skew now : ℕ) (headers : HttpHeaders) (body : List ℕ) (t : ℤ)
      (id : String) : Type 0 where
    pub id_header : header_get header_webhook_id headers ≡ id
    pub id_given : id ≢ ""
    pub signature_given : header_get header_webhook_signature headers ≢ ""
    pub seconds : ℤ
    pub timestamp : parse_int (header_get header_webhook_timestamp headers) ≡ some seconds
    pub time : unix_time seconds ≡ t
    pub signed : verify_ignoring_timestamp wh body headers ≡ none
    pub not_old : now + neg_part t ≤ pos_part t + skew
    pub not_early : pos_part t ≤ now + neg_part t + skew

  parse_int-empty : parse_int "" ≡ none
  unfolding parse_int
  parse_int-empty = refl

  verify_ok_iff :
      (wh : Webhook) (skew now : ℕ) (headers : HttpHeaders) (body : List ℕ) (t : ℤ) (id : String)
      → (verify (some wh) skew now headers body ≡ ok (t, id))
        ↔ Accepted wh skew now headers body t id
  unfolding verify
  verify_ok_iff wh skew now headers body t id = (accepted, passes)
    where
      accepted :
          verify (some wh) skew now headers body ≡ ok (t, id)
          → Accepted wh skew now headers body t id
      accepted h = elim (Option-cases (parse_int (header_get header_webhook_timestamp headers))) [
        | inl e ↦ absurd (ground arith)
        | inr (s, e) ↦
            let (p, q, r, u) =
              (check_skew_iff skew now (unix_time s) t (header_get header_webhook_id headers) id).0
                (ground arith) in
            record {
              id_header = q;
              id_given = ground arith;
              signature_given = ground arith;
              seconds = s;
              timestamp = e;
              time = p;
              signed = ground arith;
              not_old = r;
              not_early = u;
            }
      ]

      passes :
          Accepted wh skew now headers body t id
          → verify (some wh) skew now headers body ≡ ok (t, id)
      passes a = ground (
        arith,
        parse_int-empty,
        (check_skew_iff skew now (unix_time a.seconds) t (header_get header_webhook_id headers)
              id).1
            (a.time, a.id_header, a.not_old, a.not_early),
      )

  -- The verifier for a secret accepts a delivery, with this time and this id, exactly when the
  -- library makes a webhook of the secret, the id and the signature headers are not empty, the
  -- timestamp header is a number, the library accepts the signature, and the time is at most the
  -- window away from now on either side; an unset window is five minutes.
  pub new_render_verifier-Accepted :
      (secret : String) (opts : Options) (headers : HttpHeaders) (body : List ℕ) (t : ℤ)
      (id : String)
      → (new_render_verifier secret opts headers body ≡ ok (t, id)) ↔ (
          (wh : Webhook) × (build_webhook secret ≡ some wh)
          × Accepted wh
              (if opts.skew_window == 0 then 5 * 60 * 10 ^ 9 else opts.skew_window)
              opts.now
              headers
              body
              t
              id)
  unfolding new_render_verifier
  new_render_verifier-Accepted secret opts headers body t id =
      elim (Option-cases (build_webhook secret)) [
        | inl e ↦
            ((λ h. absurd (unfold verify in ground arith)), λ (wh, q, _). absurd (ground arith))
        | inr (wh, e) ↦ (
          λ h. (wh, e, (verify_ok_iff wh (skew_of opts) opts.now headers body t id).0 (rw e at h)),
          λ (wh', q, a).
              let same : wh' ≡ wh = ground arith in
              rw e (
                (verify_ok_iff wh (skew_of opts) opts.now headers body t id).1
                  (subst (λ w. Accepted w (skew_of opts) opts.now headers body t id) same a)),
        )
      ]
