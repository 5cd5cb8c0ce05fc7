-- ===== src/Services/Group/Behind.antt =====
-- Building a group of services behind others.
use eris_cli.Base.{
  ℕ, zero, suc, ◌≡◌, refl, sym, ◌∙◌, ap, none, some, List, [], ◌∷◌, ◌++◌, append_assoc, append-nil,
}
use eris_cli.Base.Int.{ℤ}
use eris_cli.Strings.{Text}
use eris_cli.Definitions.{ServiceDefinition}
use eris_cli.Docker.{DockerClient}
use eris_cli.Loaders.Outcome.{Outcome, loaded, refused, panicked, Viper, Sources}
use eris_cli.Services.Group.{
  Built, needs, build_needed, with_last, load_named, build_services_group, build_alone,
}

-- The group that is built, behind the services.
abbrev pub behind : List ServiceDefinition → Built → Built
behind services none = none
behind services (some (refused e)) = some (refused e)
behind services (some panicked) = some panicked
behind services (some (loaded g)) = some (loaded (services ++ g))

step : (Text → Built) → List Text → List ServiceDefinition → Built → Built
step build names services o = elim o [
  | none ↦ none
  | some (refused e) ↦ some (refused e)
  | some panicked ↦ some panicked
  | some (loaded s) ↦ build_needed build names (services ++ s)
]

step-behind :
    (build : Text → Built) (names : List Text) (more services : List ServiceDefinition) (o : Built)
    → ((s : List ServiceDefinition)
        → build_needed build names (more ++ (services ++ s))
          ≡ behind more (build_needed build names (services ++ s)))
    → step build names (more ++ services) o ≡ behind more (step build names services o)
unfolding step
step-behind build names more services none h = refl
step-behind build names more services (some (refused e)) h = refl
step-behind build names more services (some panicked) h = refl
step-behind build names more services (some (loaded s)) h =
    ap (build_needed build names) (append_assoc more services s) ∙ h s

build_needed-behind :
    (build : Text → Built) (names : List Text) (more services : List ServiceDefinition)
    → build_needed build names (more ++ services) ≡ behind more (build_needed build names services)
unfolding build_needed step
build_needed-behind build [] more services = refl
build_needed-behind build (name ∷ names) more services =
    step-behind build names more services (build name)
      (λ s. build_needed-behind build names more (services ++ s))

with_last-behind :
    (d : ServiceDefinition) (more : List ServiceDefinition) (o : Built)
    → with_last d (behind more o) ≡ behind more (with_last d o)
with_last-behind d more none = refl
with_last-behind d more (some (refused e)) = refl
with_last-behind d more (some panicked) = refl
with_last-behind d more (some (loaded g)) = ap (λ l. some (loaded l)) (append_assoc more g (d ∷ []))

pub behind-loaded :
    (services : List ServiceDefinition) (o : Built) (all : List ServiceDefinition)
    → behind services o ≡ some (loaded all)
    → (g : List ServiceDefinition) × (o ≡ some (loaded g)) × (all ≡ services ++ g)
behind-loaded services none all h = absurd (cc h)
behind-loaded services (some (refused e)) all h = absurd (cc h)
behind-loaded services (some panicked) all h = absurd (cc h)
behind-loaded services (some (loaded g)) all h = (g, refl, cc h)

module _ (D : DockerClient) (V : Viper) (sources : Sources) (s : D.State) (number : ℤ) where
  finish : ℕ → List ServiceDefinition → Outcome ServiceDefinition → Built
  finish fuel services o = elim o [
    | refused e ↦ some (refused e)
    | panicked ↦ some panicked
    | loaded srv ↦
        with_last srv (build_needed (build_alone D V sources s number fuel) (needs srv) services)
  ]

  finish-behind :
      (fuel : ℕ) (services : List ServiceDefinition) (o : Outcome ServiceDefinition)
      → finish fuel services o ≡ behind services (finish fuel [] o)
  unfolding finish
  finish-behind fuel services (refused e) = refl
  finish-behind fuel services panicked = refl
  finish-behind fuel services (loaded d) =
      let build = build_alone D V sources s number fuel in
      ap (λ l. with_last d (build_needed build (needs d) l)) (sym (append-nil services))
      ∙ ap (with_last d) (build_needed-behind build (needs d) services [])
      ∙ with_last-behind d services (build_needed build (needs d) [])

  -- A group that is built behind services is the group that is built alone, behind those services.
  pub build_services_group-behind :
      (fuel : ℕ) (name : Text) (services : List ServiceDefinition)
      → build_services_group D V sources s number fuel name services
        ≡ behind services (build_services_group D V sources s number fuel name [])
  unfolding build_services_group finish
  build_services_group-behind zero name services = refl
  build_services_group-behind (suc fuel) name services =
      finish-behind fuel services (load_named D V sources s number name)
