-- ===== src/Sources/Tests.antt =====
-- The registry and the Render verifier with a library that accepts the signature "ok".
use hooks.Prelude.{
  ◌≡◌, ◌↔◌, String, pos, [], ◌∷◌, none, some, ◌==◌, if◌then◌else◌, ok, string_eq, ℕ_discrete, ◌*◌,
  ◌^◌,
}
use hooks.Sources.{HttpHeaders, header_get, Options, Factory}
use hooks.Sources.Render.{
  StandardWebhooks, no_matching_signature, new_render_verifier, new_render_verifier-Accepted,
  build_webhook, Accepted,
}

abbrev test_library : StandardWebhooks String
test_library = record {
  new_webhook = some;
  new_webhook_raw = λ secret. none;
  header_webhook_id = "Webhook-Id";
  header_webhook_timestamp = "Webhook-Timestamp";
  header_webhook_signature = "Webhook-Signature";
  verify_ignoring_timestamp = λ wh body headers.
      if header_get "Webhook-Signature" headers == "ok" then none else some no_matching_signature;
}

abbrev signed_headers : HttpHeaders
signed_headers =
    ("Webhook-Id", "msg_1" ∷ [])
    ∷ ("Webhook-Timestamp", "90" ∷ [])
    ∷ ("Webhook-Signature", "ok" ∷ [])
    ∷ []

abbrev options : Options
options = record { skew_window = 0; now = 100000000000 }

new_render_verifier-Accepted_example :
    (new_render_verifier test_library "whsec_s" options signed_headers []
      ≡ ok (pos 90000000000, "msg_1"))
    ↔ ((wh : String) × (build_webhook test_library "whsec_s" ≡ some wh)
        × Accepted test_library wh
            (5 * 60 * 10 ^ 9)
            options.now
            signed_headers
            []
            (pos 90000000000)
            "msg_1")
unfolding ℕ_discrete
new_render_verifier-Accepted_example =
    new_render_verifier-Accepted test_library "whsec_s" options signed_headers [] (pos 90000000000)
      "msg_1"

abbrev open_factory : Factory
open_factory secret opts headers body = ok (pos opts.now, secret)
