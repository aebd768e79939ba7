-- ===== src/Store.antt =====
-- internal/store: the tables of the SQLite store, one module for each.
pub mod Events
pub mod Latest
pub mod Rows
pub mod Push
pub mod Tokens
pub mod Users
pub mod Scopes
pub mod Pairings
pub mod Invites
pub mod Sessions
