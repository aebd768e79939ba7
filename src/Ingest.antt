-- ===== src/Ingest.antt =====
-- internal/ingest/handler.go. The event store is the interface `EventStore` over a state `S`, the
-- notifier's wake-up is the pair handed to `go h.notifier.Publish`, and the mux is left out.
pub mod Contract
mod Tests
use mathlib.Core.Option
use hooks.Prelude.{
  ℕ, ltb, String, ℤ, pos, negsuc, List, [], ◌∷◌, map, Bool, true, false, ◌&&◌, Option, none, some,
  ◌==◌, if◌then◌else◌, Result, ok, err, length, join, last_path_segment, string_eq,
}
use hooks.Sources.{HttpHeaders, Verifier, VerifyError}
use hooks.Store.Events.{Event, AppendInput, Headers}

-- What `EventStore.Append` returns: the event, `ErrDuplicate`, or another error.
pub data Appended : Type 0 where
  stored : Event → Appended
  duplicate unavailable : Appended

pub record SourceBinding : Type 0 where
  pub verifier : Verifier
  pub body_size_limit : ℕ

-- A body is its bytes, and whether reading fails behind them. A length of -1 is not known.
pub record Request : Type 0 where
  pub method : String
  pub path : String
  pub headers : HttpHeaders
  pub content_length : ℤ
  pub body : List ℕ
  pub broken : Bool

pub record Response (S : Type 0) : Type 0 where
  pub status : ℕ
  pub state : S
  pub published : Option (String × ℕ)

pub data BodyError : Type 0 where
  too_large read_failed : BodyError

abbrev pub Bindings : Type 0
Bindings = List (String × SourceBinding)

unfoldable pub lookup_binding : String → Bindings → Option SourceBinding
lookup_binding source [] = none
lookup_binding source ((k, b) ∷ bindings) =
    let rest = lookup_binding source bindings in if k == source then some b else rest

abbrev length_exceeds : ℤ → ℕ → Bool
length_exceeds (pos n) limit = ltb 0 n && ltb limit n
length_exceeds (negsuc n) limit = false

-- `io.ReadAll` of the body behind `http.MaxBytesReader`
unfoldable pub read_all : ℕ → Request → Result BodyError (List ℕ)
read_all limit r =
    if ltb limit (length r.body)
    then err too_large
    else if r.broken
    then err read_failed
    else ok r.body

-- Every header, with its values joined.
unfoldable pub capture_headers : HttpHeaders → Headers
unfolding join
capture_headers = map (λ (k, vs). (k, join ", " vs))

module _ {S : Type 0} (append : AppendInput → S → Appended × S) where
  answer : ℕ → S → Response S
  answer status s = record { status = status; state = s; published = none }

  -- The `switch` on the store's answer.
  finish : String → Appended × S → Response S
  unfolding answer
  finish source (stored e, s) = record {
    status = 202;
    state = s;
    published = some (source, e.sequence);
  }
  finish source (duplicate, s) = answer 200 s
  finish source (unavailable, s) = answer 503 s

  store_verified : String → Request → List ℕ → Result VerifyError (ℤ × String) → S → Response S
  unfolding finish capture_headers
  store_verified source r body (err e) s = answer 401 s
  store_verified source r body (ok (time, id)) s = finish source (
      append
        (record {
          source = source;
          delivery_id = id;
          provider_timestamp = time;
          headers = capture_headers r.headers;
          body = body;
        })
        s)

  after_read : String → SourceBinding → Request → Result BodyError (List ℕ) → S → Response S
  unfolding store_verified
  after_read source b r (err too_large) s = answer 413 s
  after_read source b r (err read_failed) s = answer 400 s
  after_read source b r (ok body) s = store_verified source r body (b.verifier r.headers body) s

  -- `Handler.serveSource`
  pub serve_source : Bindings → Request → String → S → Response S
  unfolding after_read read_all
  serve_source bindings r source s = elim (lookup_binding source bindings) [
    | none ↦ answer 404 s
    | some b ↦
        if length_exceeds r.content_length b.body_size_limit
        then answer 413 s
        else after_read source b r (read_all b.body_size_limit r) s
  ]

  -- `Handler.ServeHTTP`
  pub serve_http : Bindings → Request → S → Response S
  unfolding serve_source
  serve_http bindings r s =
      if r.method == "POST"
      then serve_source bindings r (last_path_segment r.path) s
      else answer 405 s
