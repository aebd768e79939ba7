-- ===== src/Sources.antt =====
-- internal/sources: the interface of a verifier (sources.go), the registry, and the verifier of
-- Render webhooks (render.go). Headers are those of `http.Header`, by canonical name; the first
-- value of a name is what `Get` returns.
pub mod Registrations
pub mod Render
mod Tests
use hooks.Prelude.{
  ℕ, ◌*◌, String, ℤ, pos, List, [], ◌∷◌, Bool, Option, none, some, ◌==◌, if◌then◌else◌, Result,
  string_eq,
}

abbrev pub HttpHeaders : Type 0
HttpHeaders = List (String × List String)

abbrev first_value : List String → String
first_value [] = ""
first_value (v ∷ vs) = v

-- `http.Header.Get`, at a canonical name
unfoldable pub header_get : String → HttpHeaders → String
header_get name [] = ""
header_get name ((k, vs) ∷ headers) =
    let rest = header_get name headers in if k == name then first_value vs else rest

pub data VerifyError : Type 0 where
  invalid_signature stale_timestamp missing_header malformed_header other : VerifyError

-- `Verifier.Verify`: the provider's time in nanoseconds and the delivery id.
abbrev pub Verifier : Type 0
Verifier = HttpHeaders → List ℕ → Result VerifyError (ℤ × String)

-- A duration or a time of 0 in `Options` means the default; `now` is the clock.
pub record Options : Type 0 where
  pub skew_window : ℕ
  pub now : ℕ

abbrev pub second : ℕ
second = 1000000000

abbrev pub default_skew_window : ℕ
default_skew_window = 5 * 60 * second

abbrev pub Factory : Type 0
Factory = String → Options → Verifier

abbrev pub Registry : Type 0
Registry = List (String × Factory)

abbrev pub new_registry : Registry
new_registry = []

unfoldable pub lookup_factory : String → Registry → Option Factory
lookup_factory name [] = none
lookup_factory name ((k, f) ∷ known) =
    let rest = lookup_factory name known in if k == name then some f else rest

-- `Registry.Register`; `none` is the panic on a name that is taken.
unfoldable pub register : String → Factory → Registry → Option Registry
register name f known = elim (lookup_factory name known) [
  | some _ ↦ none
  | none ↦ some ((name, f) ∷ known)
]

-- `Registry.Build`
unfoldable pub build : String → String → Options → Registry → Option Verifier
build name secret opts known = elim (lookup_factory name known) [
  | none ↦ none
  | some f ↦ some (f secret opts)
]
