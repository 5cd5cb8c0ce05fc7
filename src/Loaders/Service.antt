-- ===== src/Loaders/Service.antt =====
-- `LoadServiceDefinition`, `MarshalServiceDefinition` and `MockServiceDefinition`.
use eris_cli.Base.{Bool, true, Option, none, some, [], if◌then◌else◌}
use eris_cli.Base.Int.{ℤ, pos, int_eq}
use eris_cli.Strings.{Text, codes, text_eq}
use eris_cli.Definitions.{
  Operation, blank_operation, Service, ServiceDefinition, blank_service_definition, Dependencies,
}
use eris_cli.Docker.{DockerClient}
use eris_cli.Names.{type_service}
use eris_cli.Numbering.{auto_magic}
use eris_cli.Labels.{make_labels}
use eris_cli.Loaders.Outcome.{
  Outcome, loaded, refused, panicked, unreadable, not_decoded, no_service, no_image, Viper, Sources,
  ◌>>=◌,
}
use eris_cli.Loaders.Connect.{add_dependency_volumes_and_links}
use eris_cli.Loaders.Finalize.{service_finalize_load}

module _ (D : DockerClient) (V : Viper) (sources : Sources) where
  open sources use {git_user, links_supported}

  unfoldable pub load_viper_config : Text → Text → Outcome V.File
  load_viper_config typ name = elim (V.read typ name) [
    | none ↦ refused (unreadable typ name)
    | some file ↦ loaded file
  ]

  -- "toml bools don't really marshal well"
  unfoldable pub marshal_service_definition : V.File → ServiceDefinition → Outcome ServiceDefinition
  marshal_service_definition file def = elim (V.into_service file def) [
    | none ↦ refused not_decoded
    | some srv ↦
        if V.get_bool (codes "service.data_container") file
        then elim srv.service [
          | none ↦ panicked
          | some service ↦
              loaded (record srv { service = some (record service { auto_data = true }) })
        ]
        else loaded srv
  ]

  unfoldable pub check_image : Service → Outcome (Unit {0})
  check_image srv = if text_eq srv.image [] then refused no_image else loaded tt

  -- The dependencies and the service after linking.
  unfoldable pub connect_dependencies :
      Operation → Option Dependencies → Service → Option Dependencies × Service
  unfolding add_dependency_volumes_and_links
  connect_dependencies ops none srv = (none, srv)
  connect_dependencies ops (some deps) srv =
      if links_supported
      then (let (bare, after) = add_dependency_volumes_and_links ops.container_number deps srv in
          (some bare, after))
      else (some deps, srv)

  unfoldable pub check_service : ServiceDefinition → Outcome Service
  check_service def = elim def.service [
    | none ↦ refused no_service
    | some srv ↦ check_image srv >>= λ _. loaded srv
  ]

  unfoldable pub choose_or_given : D.State → Text → Bool → ℤ → ℤ
  choose_or_given s typ new_cont number =
      if int_eq number (pos 0) then auto_magic D s typ new_cont else number

  -- The operation before a definition is read.
  unfoldable pub new_operation : Text → Text → ℤ → Operation
  new_operation typ name number =
      let ops : Operation = record blank_operation {
        container_type = typ;
        container_number = number;
      } in
      record ops { labels = some (make_labels git_user name ops) }

  -- The container's number is 0 where the source's caller gives none.
  unfoldable pub load_service_definition : D.State → Text → Bool → ℤ → Outcome ServiceDefinition
  unfolding load_viper_config marshal_service_definition check_service connect_dependencies
      choose_or_given new_operation service_finalize_load
  load_service_definition s name new_cont number =
      let ops = new_operation type_service name (choose_or_given s type_service new_cont number) in
      load_viper_config type_service name >>= λ file.
      marshal_service_definition file (record blank_service_definition { operations = ops })
      >>= λ def. check_service def >>= λ srv.
          let (deps, linked) = connect_dependencies def.operations def.dependencies srv in
          service_finalize_load D s (record def { dependencies = deps; service = some linked })

  -- Without a number the source reads the first entry of an empty slice.
  unfoldable pub mock_service_definition : D.State → Text → Option ℤ → Outcome ServiceDefinition
  unfolding new_operation service_finalize_load
  mock_service_definition s name none = panicked
  mock_service_definition s name (some number) =
      service_finalize_load D s (record blank_service_definition {
        name = name;
        operations = new_operation type_service name number;
      })
