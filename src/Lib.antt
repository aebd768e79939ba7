-- ===== src/Lib.antt =====
-- The webhook relay `hooks`: providers post deliveries to the ingest handler, which verifies and
-- stores them and wakes subscribers; subscribers read the log of a source from a cursor on, and a
-- worker for each push subscription posts the log to a target.
--
-- Files, and the code they are about (paths from the repository's root):
--   Prelude: Go's strings, integers and error results, Boolean tests and lists.
--   Store/Events: internal/store/sqlite.go (Append, ReadSince, Get, LatestSequence, Prune, PruneAll)
--     over the queries of internal/store/sqlcgen/events.sql.go. The table is the list of its rows.
--   Store/Push: the push subscriptions of internal/store/sqlite.go over the queries of
--     internal/store/sqlcgen/push.sql.go; Store/Rows holds what the wrappers share.
--   Store/Tokens: the listener tokens of internal/store/sqlite.go over the queries of
--     internal/store/sqlcgen/tokens.sql.go.
--   Store/Scopes: internal/store/scopes.go and HasScope of types.go.
--   Store/Pairings: internal/store/device_pairings_store.go over the statements of
--     internal/store/sqlcgen/device_pairings.sql.go.
--   Store/Invites, Store/Sessions: internal/store/invites_store.go and sessions_store.go over the
--     statements of internal/store/sqlcgen/invites.sql.go and sessions.sql.go.
--   Store/Users: DeactivateUserCascade of internal/store/users_store.go.
--   Push: internal/push/worker.go (run, deliver, failureWarn, backoff): one turn of the loop in run is
--     a step on the store's rows, over a record of what the world does in that turn.
--   Push/Manager: internal/push/dispatcher.go (New, Start, Stop, Add, Rotate, Pause, Resume, Remove,
--     ensureWorker).
--   Prune: internal/prune/prune.go (RunOnce, PruneOlderThan).
--   Pubsub: internal/pubsub/notifier.go (Subscribe, Unsubscribe, Publish, SubscriberCount).
--   Sources: internal/sources/sources.go and render.go (Registry, the Render verifier).
--   Ingest: internal/ingest/handler.go (ServeHTTP, serveSource) over any event store.
--   Tokens: internal/tokens/middleware.go (Resolve, ResolvePlaintext, maybeTouch, RequireScope,
--     AuthorizeSource, AuthorizeAdmin) and ParseScopes of internal/tokens/tokens.go.
--   Auth: internal/auth/sessions.go (CreateSession, Lookup, DeleteSession), login.go, middleware.go and
--     sweeper.go.
--   Users: internal/users/policy.go (ValidatePassword).
--   Invites: internal/invites/provision.go (Provision) and api.go (Signup, Create, Delete).
--   Me: internal/me/auth.go, scopes.go (Normalize) and handlers_tokens.go (ListTokens, CreateToken,
--     RevokeToken).
--   Csrf: internal/web/csrf.go (Middleware).
--   Store/Latest: internal/store/latest.go (LatestByCursor, QueueDepth).
--   Devicepair: internal/devicepair/api.go and codes.go. The goroutine that marks a pairing as fetched
--     is a step of its own, which may come at any time after the answer it follows.
--   Subscribe: internal/subscribe/handler.go (parseCursor, stream, initialDrain, liveDrain,
--     readBatchAndEmit, writeEvent) over the event store.
--
-- A handler is a function of the state to the answer and the next state, and a method under a mutex
-- or in a transaction is one step; the orders in which steps interleave are lists of calls or of
-- tables. The loop of readBatchAndEmit runs on fuel, and more fuel than pending events is enough.
--
-- Parameters: the standard-webhooks library, SHA-256, the hashes of tokens and passwords, strings.ToUpper and
-- ToLower, EqualFold, SQLite's NOCASE, url.Parse, crypto/rand, the clock, and
-- whether a write that is only tried succeeds. Not modelled: HTML pages, the
-- terminal client, logging, SQL text and migrations, the JSON encoding of headers.
pub mod Prelude
pub mod Auth
pub mod Csrf
pub mod Devicepair
pub mod Ingest
pub mod Invites
pub mod Me
pub mod Prune
pub mod Pubsub
pub mod Push
pub mod Sources
pub mod Store
pub mod Subscribe
pub mod Tokens
pub mod Users
