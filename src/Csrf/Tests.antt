-- ===== src/Csrf/Tests.antt =====
-- A request of a browser, one from another site, and the theorem applied to a request with a cookie.
use hooks.Prelude.{
  ◌≡◌, ◌⊎◌, refl, String, none, some, err, String-discrete, ℕ_discrete, string_eq, ◌==◌,
  if◌then◌else◌,
}
use hooks.Csrf.{
  Urls, Request, CsrfConfig, middleware, want_host, origin_mismatch, missing_token, trim_suffix,
}
use hooks.Csrf.Admission.{Bypassed, SameHost, TokenMatches, middleware_iff}

abbrev urls : Urls
urls = record {
  host_of = λ u.
      if u == "https://hooks.example:443/x" then some "hooks.example:443" else some "evil.example";
  equal_fold = λ a b. a == b;
}

abbrev cfg : CsrfConfig
cfg = record { expected_host = ""; skip_func = none }

abbrev request : Request
request = record {
  method = "POST";
  host = "hooks.example";
  origin = "";
  referer = "https://hooks.example:443/x";
  session_cookie = some "s";
  csrf_cookie = some "c";
  header_token = "";
  form_token = "c";
}

abbrev next : Request → String
next r = r.host

middleware_iff_example :
    Bypassed cfg request
    ⊎ (SameHost urls (want_host cfg.expected_host request) request × TokenMatches request)
unfolding middleware trim_suffix String-discrete ℕ_discrete
middleware_iff_example = (middleware_iff urls cfg next request).0 refl

other_site :
    middleware urls cfg next (record request { origin = "https://evil.example" })
    ≡ err origin_mismatch
unfolding middleware trim_suffix String-discrete ℕ_discrete
other_site = refl

no_token : middleware urls cfg next (record request { form_token = "" }) ≡ err missing_token
unfolding middleware trim_suffix String-discrete ℕ_discrete
no_token = refl
