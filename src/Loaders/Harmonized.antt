-- ===== src/Loaders/Harmonized.antt =====
-- What `ServiceFinalizeLoad` makes of the names.
use eris_cli.Base.{
  ℕ, ◌≡◌, refl, ◌∙◌, subst, ap, ◌≢◌, ◌⊎◌, inl, inr, none, some, Option-cases, [], ◌∷◌, Bool,
  Bool-cases, true, false,
}
use eris_cli.Strings.{Text, codes, text_eq, replace_all, replace_from, has_prefix}
use eris_cli.Definitions.{Operation, Service, ServiceDefinition}
use eris_cli.Docker.{DockerClient}
use eris_cli.Names.{ContainerName, service_containers_name, data_containers_name}
use eris_cli.Names.RoundTrip.{data_container_pairs}
use eris_cli.Listing.{find_service_container, find_data_container}
use eris_cli.Loaders.Outcome.{loaded, panicked}
use eris_cli.Loaders.Finalize.{
  harmonize, finalize_named, service_finalize_load, set_data_names, set_service_names,
  default_names,
}

-- What the names of a loaded definition are.
pub record Harmonized (name srv_name : Text) (names : Text × Text) : Type 0 where
  pub name_given : names.0 ≢ []
  pub srv_name_given : names.1 ≢ []
  pub one_name : (name ≡ []) ⊎ (srv_name ≡ []) → names.0 ≡ names.1
  pub name_kept : name ≢ [] → names.0 ≡ name
  pub srv_name_kept : srv_name ≢ [] → names.1 ≡ srv_name

replace_all-given : (c : ℕ) (image : Text) → replace_all (c ∷ image) (codes "/") (codes "_") ≢ []
unfolding replace_all replace_from
replace_all-given c image = elim (Bool-cases (has_prefix (c ∷ image) (codes "/"))) [
  | inl slash ↦ rw (slash, replace_all, replace_from) (λ e. cc)
  | inr other ↦ rw (other, replace_all, replace_from) (λ e. cc)
]

harmonize_lem :
    (name srv_name image : Text)
    → ((harmonize name srv_name image ≡ none) × (name ≡ []) × (srv_name ≡ []) × (image ≡ []))
      ⊎ ((names : Text × Text) × (harmonize name srv_name image ≡ some names)
          × Harmonized name srv_name names)
unfolding harmonize text_eq
harmonize_lem [] [] [] = inl (refl, refl, refl, refl)
harmonize_lem [] [] (c ∷ image) = inr (
  _,
  refl,
  record {
    name_given = replace_all-given c image;
    srv_name_given = replace_all-given c image;
    one_name = λ _. refl;
    name_kept = λ h. absurd (h refl);
    srv_name_kept = λ h. absurd (h refl);
  },
)
harmonize_lem [] (d ∷ srv_name) image = inr (
  _,
  refl,
  record {
    name_given = λ e. cc;
    srv_name_given = λ e. cc;
    one_name = λ _. refl;
    name_kept = λ h. absurd (h refl);
    srv_name_kept = λ h. refl;
  },
)
harmonize_lem (c ∷ name) [] image = inr (
  _,
  refl,
  record {
    name_given = λ e. cc;
    srv_name_given = λ e. cc;
    one_name = λ _. refl;
    name_kept = λ h. refl;
    srv_name_kept = λ h. absurd (h refl);
  },
)
harmonize_lem (c ∷ name) (d ∷ srv_name) image = inr (
  _,
  refl,
  record {
    name_given = λ e. cc;
    srv_name_given = λ e. cc;
    one_name = λ h. elim h [ inl e ↦ absurd (cc e) | inr e ↦ absurd (cc e) ];
    name_kept = λ h. refl;
    srv_name_kept = λ h. refl;
  },
)

module _ (D : DockerClient) (s : D.State) where
  -- What the loader makes of a definition.
  pub record Finalized (def : ServiceDefinition) (srv : Service) (out : ServiceDefinition)
      : Type 0 where
    pub srv_name : Text
    pub service : out.service ≡ some (record srv { name = srv_name })
    pub names : Harmonized def.name srv.name (out.name, srv_name)
    pub operations :
        out.operations
        ≡ set_data_names D s out.name srv.auto_data (set_service_names D s out.name def.operations)

  -- Finalizing a definition that has a service panics only if it has no name, no name of the service
  -- and no image. Otherwise the result has both names; they are equal if one of them was missing,
  -- and a name that was given is kept.
  pub service_finalize_load-Harmonized :
      (def : ServiceDefinition) (srv : Service)
      → def.service ≡ some srv
      → ((service_finalize_load D s def ≡ panicked)
          × (def.name ≡ [])
          × (srv.name ≡ [])
          × (srv.image ≡ []))
        ⊎ ((out : ServiceDefinition) × (service_finalize_load D s def ≡ loaded out)
            × Finalized def srv out)
  unfolding service_finalize_load finalize_named
  service_finalize_load-Harmonized def srv h = elim (harmonize_lem def.name srv.name srv.image) [
    | inl (e, empty, srv_empty, no_image) ↦
        inl (rw (h, e, service_finalize_load) refl, empty, srv_empty, no_image)
    | inr (names, e, harmonized) ↦ inr (
      finalize_named D s def srv names,
      rw (h, e, service_finalize_load) refl,
      record { srv_name = names.1; service = refl; names = harmonized; operations = refl },
    )
  ]

  set_service_names-canonical :
      (name : Text) (ops : Operation)
      → ((c : ContainerName)
          → find_service_container D s name ops.container_number true ≡ some c
          → c.full_name ≡ service_containers_name name ops.container_number)
      → ((set_service_names D s name ops).srv_container_name
          ≡ service_containers_name name ops.container_number)
        × ((set_service_names D s name ops).container_number ≡ ops.container_number)
  unfolding set_service_names default_names
  set_service_names-canonical name ops h =
      elim (Option-cases (find_service_container D s name ops.container_number true)) [
        | inl missing ↦ rw (missing, set_service_names) (refl, refl)
        | inr (c, found) ↦ rw (found, set_service_names) (h c found, refl)
      ]

  set_data_names-canonical :
      (name : Text) (auto_data : Bool) (ops : Operation)
      → ((c : ContainerName)
          → find_data_container D s name ops.container_number ≡ some c
          → c.full_name ≡ data_containers_name name ops.container_number)
      → ops.srv_container_name ≡ service_containers_name name ops.container_number
      → ((set_data_names D s name auto_data ops).srv_container_name
          ≡ service_containers_name name ops.container_number)
        × (auto_data ≡ true
            → (set_data_names D s name auto_data ops).data_container_name
              ≡ data_containers_name name ops.container_number)
  unfolding set_data_names default_names
  set_data_names-canonical name false ops h same = (same, λ e. absurd (cc e))
  set_data_names-canonical name true ops h same =
      elim (Option-cases (find_data_container D s name ops.container_number)) [
        | inl missing ↦
            rw (missing, set_data_names)
              (refl, λ _. (data_container_pairs name ops.container_number).0)
        | inr (c, found) ↦ rw (found, set_data_names) (same, λ _. h c found)
      ]

  -- The names that a definition's operation is loaded with. If the containers that the daemon lists
  -- under its name and number have the assembled names, so has the operation in every case, found or
  -- not, also the data container's if the service manages one.
  pub service_finalize_load-canonical :
      (def : ServiceDefinition) (srv : Service) (out : ServiceDefinition)
      → def.service ≡ some srv
      → service_finalize_load D s def ≡ loaded out
      → ((c : ContainerName)
          → find_service_container D s out.name def.operations.container_number true ≡ some c
          → c.full_name ≡ service_containers_name out.name def.operations.container_number)
      → ((c : ContainerName)
          → find_data_container D s out.name def.operations.container_number ≡ some c
          → c.full_name ≡ data_containers_name out.name def.operations.container_number)
      → (out.operations.srv_container_name
          ≡ service_containers_name out.name def.operations.container_number)
        × (srv.auto_data ≡ true
            → out.operations.data_container_name
              ≡ data_containers_name out.name def.operations.container_number)
  service_finalize_load-canonical def srv out h done services datas =
      elim (service_finalize_load-Harmonized def srv h) [
        | inl (e, _, _, _) ↦ absurd (cc (e, done))
        | inr (o, e, finalized) ↦
            let same : o ≡ out = cc (e, done) in
            let shape = subst (λ x. Finalized def srv x) same finalized in
            let (name, number) = set_service_names-canonical out.name def.operations services in
            let again =
              set_data_names-canonical out.name srv.auto_data
                (set_service_names D s out.name def.operations) (rw number datas)
                (rw number name) in
            rw shape.operations (
              again.0 ∙ ap (service_containers_name out.name) number,
              λ auto. again.1 auto ∙ ap (data_containers_name out.name) number,
            )
      ]
