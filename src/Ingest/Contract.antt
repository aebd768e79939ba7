-- ===== src/Ingest/Contract.antt =====
-- internal/ingest/handler.go over any event store: the interface, the SQLite store as an instance of
-- it, and the effect of a request by its status.
use hooks.Prelude.{
  ℕ, ◌≤◌, ◌≡◌, refl, ◌≢◌, ◌⊎◌, inl, inr, String, ℤ, List, [], ◌∷◌, ◌++◌, none, some, arith, Result,
  ok, err, length, ◌==◌, Has, string_eq, Option-cases, Bool-cases, last_path_segment,
}
use hooks.Sources.{VerifyError}
use hooks.Store.Events
use hooks.Store.Events.{
  Event, AppendInput, AppendError, empty_source, empty_delivery_id, insert_failed,
}
use hooks.Store.Events.Sequence.{append_gapless}
use hooks.Store.Events.Dedupe.{append_duplicate_iff}
use hooks.Ingest.{
  Appended, stored, duplicate, unavailable, SourceBinding, Request, Response, Bindings, BodyError,
  too_large, read_failed, lookup_binding, length_exceeds, read_all, capture_headers, answer, finish,
  store_verified, after_read, serve_source, serve_http,
}

-- The event holds what the handler handed over.
pub record Carries (inp : AppendInput) (e : Event) : Type 0 where
  pub source : e.source ≡ inp.source
  pub delivery_id : e.delivery_id ≡ inp.delivery_id
  pub provider_timestamp : e.provider_timestamp ≡ inp.provider_timestamp
  pub headers : e.headers ≡ inp.headers
  pub body : e.body ≡ inp.body

abbrev pub Already : AppendInput → List Event → Type 0
Already inp rows =
    (x : Event) × Has x rows × ((x.source ≡ inp.source) × (x.delivery_id ≡ inp.delivery_id))

-- `store.EventStore` as the handler sees it: an append-only log.
pub record EventStore (S : Type 0) : Type 0 where
  pub append : AppendInput → S → Appended × S
  pub log : S → List Event
  pub log_stored :
      (inp : AppendInput) (s : S) (e : Event)
      → (append inp s).0 ≡ stored e
      → (log (append inp s).1 ≡ log s ++ e ∷ []) × Carries inp e
  pub log_duplicate :
      (inp : AppendInput) (s : S)
      → (append inp s).0 ≡ duplicate
      → (log (append inp s).1 ≡ log s) × Already inp (log s)
  pub log_unavailable :
      (inp : AppendInput) (s : S) → (append inp s).0 ≡ unavailable → log (append inp s).1 ≡ log s

to_appended : Result AppendError Event → Appended
to_appended (ok e) = stored e
to_appended (err Events.duplicate) = duplicate
to_appended (err empty_source) = unavailable
to_appended (err empty_delivery_id) = unavailable
to_appended (err insert_failed) = unavailable

module _ (sha256 : List ℕ → String) (window now : ℕ) where
  unfoldable pub sqlite_append : AppendInput → List Event → Appended × List Event
  unfolding to_appended
  sqlite_append inp rows =
      let (r, rows') = Events.append sha256 window now inp rows in (to_appended r, rows')

  pub sqlite_stored :
      (inp : AppendInput) (rows : List Event) (e : Event)
      → (sqlite_append inp rows).0 ≡ stored e
      → ((sqlite_append inp rows).1 ≡ rows ++ e ∷ []) × Carries inp e
  unfolding sqlite_append Events.append Events.new_event
  sqlite_stored inp rows e h = ground (arith, append_gapless sha256 window now inp rows e)

  pub sqlite_duplicate :
      (inp : AppendInput) (rows : List Event)
      → (sqlite_append inp rows).0 ≡ duplicate
      → ((sqlite_append inp rows).1 ≡ rows) × Already inp rows
  unfolding sqlite_append Events.append
  sqlite_duplicate inp rows h =
      let (x, m, p) =
        (append_duplicate_iff sha256 window now inp rows (ground arith) (ground arith)).0
          (ground arith) in
      (ground arith, (x, m, (p.0, p.1)))

  pub sqlite_unavailable :
      (inp : AppendInput) (rows : List Event)
      → (sqlite_append inp rows).0 ≡ unavailable
      → (sqlite_append inp rows).1 ≡ rows
  unfolding sqlite_append Events.append
  sqlite_unavailable inp rows h = ground arith

  -- The SQLite store is an event store.
  abbrev pub sqlite : EventStore (List Event)
  sqlite = record {
    append = sqlite_append;
    log = λ rows. rows;
    log_stored = sqlite_stored;
    log_duplicate = sqlite_duplicate;
    log_unavailable = sqlite_unavailable;
  }

abbrev pub input_of : String → Request → ℤ → String → AppendInput
input_of source r time id = record {
  source = source;
  delivery_id = id;
  provider_timestamp = time;
  headers = capture_headers r.headers;
  body = r.body;
}

module _ {S : Type 0} (store : EventStore S) (bindings : Bindings) (r : Request) (source : String)
    (s : S) where
  -- The delivery was verified, and one event with its contents was appended and announced.
  pub record Accepted (out : Response S) : Type 0 where
    pub binding : SourceBinding
    pub bound : lookup_binding source bindings ≡ some binding
    pub fits : length r.body ≤ binding.body_size_limit
    pub time : ℤ
    pub id : String
    pub verified : binding.verifier r.headers r.body ≡ ok (time, id)
    pub event : Event
    pub logged : store.log out.state ≡ store.log s ++ event ∷ []
    pub carries : Carries (input_of source r time id) event
    pub published : out.published ≡ some (source, event.sequence)
    pub status : out.status ≡ 202

  -- The log stays and nobody is woken; at status 200 the log has the verified delivery Already.
  pub record Refused (out : Response S) : Type 0 where
    pub not_accepted : out.status ≢ 202
    pub unlogged : store.log out.state ≡ store.log s
    pub unpublished : out.published ≡ none
    pub duplicate :
        out.status ≡ 200
        → (b : SourceBinding) × (lookup_binding source bindings ≡ some b)
          × (time : ℤ) × (id : String) × (b.verifier r.headers r.body ≡ ok (time, id))
          × Already (input_of source r time id) (store.log s)

  abbrev pub Effect : Response S → Type 0
  Effect out = Accepted out ⊎ Refused out

  refuse : (status : ℕ) → status ≢ 202 → status ≢ 200 → Effect (answer store.append status s)
  unfolding answer
  refuse status h k = inr (record {
    not_accepted = h;
    unlogged = refl;
    unpublished = refl;
    duplicate = λ e. absurd (k e);
  })

  module _ (b : SourceBinding) (bound : lookup_binding source bindings ≡ some b)
      (fits : length r.body ≤ b.body_size_limit) (time : ℤ) (id : String)
      (verified : b.verifier r.headers r.body ≡ ok (time, id)) where
    finish-Effect :
        (a : Appended)
        → (store.append (input_of source r time id) s).0 ≡ a
        → Effect (finish store.append source (a, (store.append (input_of source r time id) s).1))
    unfolding finish
    finish-Effect (stored e) h =
        let (logged, carries) = store.log_stored (input_of source r time id) s e h in
        inl (record {
          binding = b;
          bound = bound;
          fits = fits;
          time = time;
          id = id;
          verified = verified;
          event = e;
          logged = logged;
          carries = carries;
          published = refl;
          status = refl;
        })
    finish-Effect duplicate h =
        let (same, before) = store.log_duplicate (input_of source r time id) s h in
        inr (record {
          not_accepted = λ e. omega arith;
          unlogged = same;
          unpublished = refl;
          duplicate = λ _. (b, bound, time, id, verified, before);
        })
    finish-Effect unavailable h = inr (record {
      not_accepted = λ e. omega arith;
      unlogged = store.log_unavailable (input_of source r time id) s h;
      unpublished = refl;
      duplicate = λ e. absurd (omega arith);
    })

  module _ (b : SourceBinding) (bound : lookup_binding source bindings ≡ some b)
      (fits : length r.body ≤ b.body_size_limit) where
    store_verified-Effect :
        (v : Result VerifyError (ℤ × String))
        → b.verifier r.headers r.body ≡ v
        → Effect (store_verified store.append source r r.body v s)
    unfolding store_verified
    store_verified-Effect (err e) h = refuse 401 (λ e. omega arith) (λ e. omega arith)
    store_verified-Effect (ok (time, id)) h =
        finish-Effect b bound fits time id h (store.append (input_of source r time id) s).0 refl

  after_read-Effect :
      (b : SourceBinding)
      → lookup_binding source bindings ≡ some b
      → (body : Result BodyError (List ℕ)) → read_all b.body_size_limit r ≡ body
      → Effect (after_read store.append source b r body s)
  unfolding after_read read_all
  after_read-Effect b bound (err too_large) h = refuse 413 (λ e. omega arith) (λ e. omega arith)
  after_read-Effect b bound (err read_failed) h = refuse 400 (λ e. omega arith) (λ e. omega arith)
  after_read-Effect b bound (ok body) h =
      let whole : r.body ≡ body = ground arith in
      rw (← whole) (store_verified-Effect b bound (ground arith) (b.verifier r.headers r.body) refl)

  serve_source-Effect : Effect (serve_source store.append bindings r source s)
  unfolding serve_source
  serve_source-Effect = elim (Option-cases (lookup_binding source bindings)) [
    | inl e ↦ rw (e, serve_source) (refuse 404 (λ e. omega arith) (λ e. omega arith))
    | inr (b, e) ↦ elim (Bool-cases (length_exceeds r.content_length b.body_size_limit)) [
      | inl f ↦ rw (e, f, serve_source) (refuse 413 (λ e. omega arith) (λ e. omega arith))
      | inr f ↦ rw (e, f, serve_source) (after_read-Effect b e (read_all b.body_size_limit r) refl)
    ]
  ]

-- Over any event store a request either is accepted, with status 202: it is a POST, the body fits,
-- the verifier of the source that its path ends in accepted it, exactly one event that carries it
-- was appended, and its number was published. Or it is refused, with another status: the log is as
-- before and nothing was published, and a status 200 means that the log has an event of the source
-- with the verified delivery id.
pub serve_http-Effect :
    {S : Type 0} (store : EventStore S) (bindings : Bindings) (r : Request) (s : S)
    → let out = serve_http store.append bindings r s in
      Effect store bindings r (last_path_segment r.path) s out
      × (out.status ≡ 202 → r.method ≡ "POST")
unfolding serve_http
serve_http-Effect store bindings r s = elim (Bool-cases (r.method == "POST")) [
  | inl e ↦
      rw e (serve_source-Effect store bindings r (last_path_segment r.path) s, λ h. ground arith)
  | inr e ↦ rw e (
    refuse store bindings r (last_path_segment r.path) s 405 (λ h. omega arith) (λ h. omega arith),
    λ h. absurd (unfold answer in omega (arith, h)),
  )
]
