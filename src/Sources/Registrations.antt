-- ===== src/Sources/Registrations.antt =====
-- `Registry.Register` and `Registry.Build` of internal/sources/sources.go.
use hooks.Prelude.{
  ◌≡◌, String, none, some, arith, ◌==◌, if◌then◌else◌, string_eq, inl, inr, Option-cases,
}
use hooks.Sources.{Options, Verifier, Factory, Registry, lookup_factory, register, build}

-- A name can be registered exactly when nothing can be built under it yet; then it builds what its
-- factory makes, and every other name builds what it built before.
pub register-build :
    (name secret : String) (f : Factory) (opts : Options) (known : Registry)
    → (register name f known ≡ none → (v : Verifier) × (build name secret opts known ≡ some v))
      × ((known' : Registry)
          → register name f known ≡ some known'
          → (build name secret opts known ≡ none)
            × ((other : String)
                → build other secret opts known' ≡ (
                    if name == other then some (f secret opts) else build other secret opts known)))
unfolding register build lookup_factory
register-build name secret f opts known = (
  λ h. elim (Option-cases (lookup_factory name known)) [
    | inl e ↦ absurd (ground arith)
    | inr (g, e) ↦ (g secret opts, ground arith)
  ],
  λ known' h. (ground arith, λ other. ground arith),
)
