-- ===== src/Ingest/Tests.antt =====
-- A request to the ingest handler over the SQLite store.
use hooks.Prelude.{ℕ, ◌≡◌, String, pos, List, [], ◌∷◌, false, ok, last_path_segment}
use hooks.Sources.{Verifier}
use hooks.Store.Events.{Event}
use hooks.Ingest.{Request, Bindings, serve_http}
use hooks.Ingest.Contract.{Effect, sqlite, serve_http-Effect}

abbrev digest : List ℕ → String
digest body = "00"

abbrev trusting : Verifier
trusting headers body = ok (pos 7, "msg_1")

abbrev bound_sources : Bindings
bound_sources = ("a", record { verifier = trusting; body_size_limit = 10 }) ∷ []

abbrev post : Request
post = record {
  method = "POST";
  path = "/ingest/a";
  headers = ("X", "1" ∷ "2" ∷ []) ∷ [];
  content_length = pos 2;
  body = 1 ∷ 2 ∷ [];
  broken = false;
}

abbrev no_events : List Event
no_events = []

serve_http-Effect_example :
    let out = serve_http (sqlite digest 5 30).append bound_sources post no_events in
    Effect (sqlite digest 5 30) bound_sources post (last_path_segment post.path) no_events out
    × (out.status ≡ 202 → post.method ≡ "POST")
serve_http-Effect_example = serve_http-Effect (sqlite digest 5 30) bound_sources post no_events
