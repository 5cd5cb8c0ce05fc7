-- ===== src/Services/Group/Finite.antt =====
-- When building a group of services ends.
use eris_cli.Base.{
  ℕ, zero, suc, ◌<◌, ◌≡◌, refl, ◌∙◌, ap, arith, none, some, List, [], ◌∷◌, ◌++◌, All, All-map,
}
use eris_cli.Base.Int.{ℤ}
use eris_cli.Strings.{Text}
use eris_cli.Definitions.{ServiceDefinition}
use eris_cli.Docker.{DockerClient}
use eris_cli.Loaders.Outcome.{Outcome, loaded, refused, panicked, Viper, Sources}
use eris_cli.Services.Group.{
  Built, needs, build_needed, with_last, load_named, build_services_group, build_alone,
}

-- A loop whose calls end ends.
build_needed-ends :
    (build : Text → Built) (names : List Text) (services : List ServiceDefinition)
    → All (λ name. (r : Outcome (List ServiceDefinition)) × (build name ≡ some r)) names
    → (r : Outcome (List ServiceDefinition)) × (build_needed build names services ≡ some r)
unfolding build_needed
build_needed-ends build [] services h = (loaded services, refl)
build_needed-ends build (name ∷ names) services ((refused e, same), h) =
    (refused e, rw (same, build_needed) refl)
build_needed-ends build (name ∷ names) services ((panicked, same), h) =
    (panicked, rw (same, build_needed) refl)
build_needed-ends build (name ∷ names) services ((loaded s, same), h) =
    rw (same, build_needed) (build_needed-ends build names (services ++ s) h)

-- Calls that return the same give the same loop.
build_needed-same :
    (f g : Text → Built) (names : List Text) (services : List ServiceDefinition)
    → All (λ name. f name ≡ g name) names
    → build_needed f names services ≡ build_needed g names services
unfolding build_needed
build_needed-same f g [] services h = refl
build_needed-same f g (name ∷ names) services (same, h) =
    rw (same, build_needed) (rest (g name) (λ s. build_needed-same f g names (services ++ s) h))
  where
    rest :
        (o : Built)
        → ((s : List ServiceDefinition)
            → build_needed f names (services ++ s) ≡ build_needed g names (services ++ s))
        → (elim o as (λ _. Built) [
          | none ↦ none
          | some (refused e) ↦ some (refused e)
          | some panicked ↦ some panicked
          | some (loaded s) ↦ build_needed f names (services ++ s)
        ])
          ≡ (elim o as (λ _. Built) [
            | none ↦ none
            | some (refused e) ↦ some (refused e)
            | some panicked ↦ some panicked
            | some (loaded s) ↦ build_needed g names (services ++ s)
          ])
    rest none k = refl
    rest (some (refused e)) k = refl
    rest (some panicked) k = refl
    rest (some (loaded s)) k = k s

with_last-ends :
    (d : ServiceDefinition) (r : Outcome (List ServiceDefinition))
    → (q : Outcome (List ServiceDefinition)) × (with_last d (some r) ≡ some q)
with_last-ends d (loaded g) = (loaded (g ++ d ∷ []), refl)
with_last-ends d (refused e) = (refused e, refl)
with_last-ends d panicked = (panicked, refl)

module _ (D : DockerClient) (V : Viper) (sources : Sources) (s : D.State) (number : ℤ) where
  -- The rank falls from a service to those that it needs.
  abbrev pub IsRanked : (Text → ℕ) → Type 0
  IsRanked rank =
      (name : Text) (d : ServiceDefinition)
      → load_named D V sources s number name ≡ loaded d
      → All (λ n. rank n < rank name) (needs d)

  finish : ℕ → List ServiceDefinition → Outcome ServiceDefinition → Built
  finish fuel services o = elim o [
    | refused e ↦ some (refused e)
    | panicked ↦ some panicked
    | loaded srv ↦
        with_last srv (build_needed (build_alone D V sources s number fuel) (needs srv) services)
  ]

  finish-ends :
      (fuel : ℕ) (services : List ServiceDefinition) (o : Outcome ServiceDefinition)
      → ((d : ServiceDefinition)
          → o ≡ loaded d
          → (r : Outcome (List ServiceDefinition)) × (build_needed
                (build_alone D V sources s number fuel)
                (needs d)
                services
              ≡ some r))
      → (r : Outcome (List ServiceDefinition)) × (finish fuel services o ≡ some r)
  unfolding finish
  finish-ends fuel services (refused e) h = (refused e, refl)
  finish-ends fuel services panicked h = (panicked, refl)
  finish-ends fuel services (loaded d) h =
      let (r, e) = h d refl in let (q, e') = with_last-ends d r in (q, ap (with_last d) e ∙ e')

  finish-same :
      (fuel more : ℕ) (services : List ServiceDefinition) (o : Outcome ServiceDefinition)
      → ((d : ServiceDefinition)
          → o ≡ loaded d
          → build_needed (build_alone D V sources s number fuel) (needs d) services
            ≡ build_needed (build_alone D V sources s number more) (needs d) services)
      → finish fuel services o ≡ finish more services o
  unfolding finish
  finish-same fuel more services (refused e) h = refl
  finish-same fuel more services panicked h = refl
  finish-same fuel more services (loaded d) h = ap (with_last d) (h d refl)

  group-ends :
      (rank : Text → ℕ)
      → IsRanked rank
      → (fuel : ℕ) (name : Text) (services : List ServiceDefinition) → rank name < fuel
      → (r : Outcome (List ServiceDefinition)) × (build_services_group D V sources s number fuel
            name services
          ≡ some r)
  unfolding build_services_group finish
  group-ends rank ranked zero name services h = absurd (omega (arith, h))
  group-ends rank ranked (suc fuel) name services h =
      finish-ends fuel services (load_named D V sources s number name) (λ d e.
        build_needed-ends _ (needs d) services (
          All-map (λ n below. group-ends rank ranked fuel n [] (omega (arith, below, h))) (needs d)
            (ranked name d e)))

  group-same :
      (rank : Text → ℕ)
      → IsRanked rank
      → (fuel more : ℕ) (name : Text) (services : List ServiceDefinition) → rank name < fuel
      → rank name < more
      → build_services_group D V sources s number fuel name services
        ≡ build_services_group D V sources s number more name services
  unfolding build_services_group finish
  group-same rank ranked zero more name services h k = absurd (omega (arith, h))
  group-same rank ranked (suc fuel) zero name services h k = absurd (omega (arith, k))
  group-same rank ranked (suc fuel) (suc more) name services h k =
      finish-same fuel more services (load_named D V sources s number name) (λ d e.
        build_needed-same _ _ (needs d) services (
          All-map
            (λ n below.
              group-same rank ranked fuel more n [] (omega (arith, below, h))
                (omega (arith, below, k)))
            (needs d) (ranked name d e)))

  -- If services need each other without a cycle, as a rank that falls along the dependencies tells,
  -- building a group behind any services ends: there is one result, which every fuel above the rank
  -- gives.
  pub build_services_group-ends :
      (rank : Text → ℕ)
      → IsRanked rank
      → (name : Text) (services : List ServiceDefinition)
      → (r : Outcome (List ServiceDefinition)) × ((fuel : ℕ)
          → rank name < fuel
          → build_services_group D V sources s number fuel name services ≡ some r)
  build_services_group-ends rank ranked name services =
      let (r, e) = group-ends rank ranked (suc (rank name)) name services (omega arith) in
      (r, λ fuel h. group-same rank ranked fuel (suc (rank name)) name services h (omega arith) ∙ e)

  -- Services with the property first need another service with the property.
  abbrev pub IsCyclic : (Text → Type 0) → Type 0
  IsCyclic P =
      (name : Text)
      → P name
      → (d : ServiceDefinition) × (next : Text) × (names : List Text) × (load_named D V sources s
            number name
          ≡ loaded d)
        × (needs d ≡ next ∷ names)
        × P next

  finish-none :
      (fuel : ℕ) (services : List ServiceDefinition) (o : Outcome ServiceDefinition)
      (d : ServiceDefinition)
      → o ≡ loaded d
      → build_needed (build_alone D V sources s number fuel) (needs d) services ≡ none
      → finish fuel services o ≡ none
  unfolding finish
  finish-none fuel services o d found h = rw found (ap (with_last d) h)

  build_needed-none :
      (build : Text → Built) (next : Text) (names : List Text) (services : List ServiceDefinition)
      → build next ≡ none
      → build_needed build (next ∷ names) services ≡ none
  unfolding build_needed
  build_needed-none build next names services h = rw (h, build_needed) refl

  -- For services whose first dependency leads round a cycle, building a group behind any services never
  -- ends: every fuel runs out.
  pub build_services_group-cyclic :
      (P : Text → Type 0)
      → IsCyclic P
      → (fuel : ℕ) (name : Text) (services : List ServiceDefinition) → P name
      → build_services_group D V sources s number fuel name services ≡ none
  unfolding build_services_group finish
  build_services_group-cyclic P cyclic zero name services h = refl
  build_services_group-cyclic P cyclic (suc fuel) name services h =
      let (d, next, names, found, needed, again) = cyclic name h in
      let out = build_services_group-cyclic P cyclic fuel next [] again in
      finish-none fuel services (load_named D V sources s number name) d found (
        rw needed
          (build_needed-none (build_alone D V sources s number fuel) next names services out))
