-- ===== src/Services/Group.antt =====
-- Groups of services (services/operate.go): the services that a service depends on, before it.
pub mod Ordered
pub mod Finite
pub mod Behind
use eris_cli.Base.{ℕ, zero, suc, Bool, false, Option, none, some, List, [], ◌∷◌, ◌++◌}
use eris_cli.Base.Int.{ℤ}
use eris_cli.Strings.{Text}
use eris_cli.Definitions.{ServiceDefinition}
use eris_cli.Docker.{DockerClient}
use eris_cli.Loaders.Outcome.{Outcome, loaded, refused, panicked, Viper, Sources}
use eris_cli.Loaders.Service.{load_service_definition}

-- What building a group returns; `none` is a run out of fuel.
abbrev pub Built : Type 0
Built = Option (Outcome (List ServiceDefinition))

-- The services on which a definition depends.
abbrev pub needs : ServiceDefinition → List Text
needs def = elim def.dependencies [ none ↦ [] | some deps ↦ deps.services ]

-- The loop over the dependencies. `build` is the recursive call.
unfoldable pub build_needed : (Text → Built) → List Text → List ServiceDefinition → Built
build_needed build [] services = some (loaded services)
build_needed build (name ∷ names) services = elim (build name) [
  | none ↦ none
  | some (refused e) ↦ some (refused e)
  | some panicked ↦ some panicked
  | some (loaded s) ↦ build_needed build names (services ++ s)
]

abbrev pub with_last : ServiceDefinition → Built → Built
with_last def (some (loaded services)) = some (loaded (services ++ def ∷ []))
with_last def (some (refused e)) = some (refused e)
with_last def (some panicked) = some panicked
with_last def none = none

module _ (D : DockerClient) (V : Viper) (sources : Sources) (s : D.State) (number : ℤ) where
  -- The definition of a name.
  unfoldable pub load_named : Text → Outcome ServiceDefinition
  load_named name = load_service_definition D V sources s name false number

  -- `services` is the variadic argument: the services before those that this one needs. The fuel bounds
  -- the depth of the recursion, which the source does not bound.
  unfoldable pub build_services_group : ℕ → Text → List ServiceDefinition → Built
  unfolding build_needed load_named
  build_services_group zero name services = none
  build_services_group (suc fuel) name services = elim (load_named name) [
    | refused e ↦ some (refused e)
    | panicked ↦ some panicked
    | loaded srv ↦
        with_last srv (build_needed (λ n. build_services_group fuel n []) (needs srv) services)
  ]

  -- The call with no such argument.
  abbrev pub build_alone : ℕ → Text → Built
  build_alone fuel name = build_services_group fuel name []
