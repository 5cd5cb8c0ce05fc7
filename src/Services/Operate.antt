-- ===== src/Services/Operate.antt =====
-- The operations on services (services/operate.go).
use eris_cli.Base.{ℕ, false, Option, none, some, List, [], ◌∷◌, ◌++◌, if◌then◌else◌, map}
use eris_cli.Base.Int.{ℤ}
use eris_cli.Strings.{Text, codes, text_eq, init, last_or}
use eris_cli.Definitions.{Operation, Service, ServiceDefinition}
use eris_cli.Definitions.Do.{Do}
use eris_cli.Docker.{DockerClient}
use eris_cli.Names.{ContainerName}
use eris_cli.Listing.{find_service_container}
use eris_cli.Merge.Struct.{merge_operation}
use eris_cli.Loaders.Service.{load_service_definition}
use eris_cli.Perform.Service.{docker_run_service, docker_exec_service}
use eris_cli.Perform.Lifecycle.{docker_stop, docker_remove}
use eris_cli.Command.{
  perform_error, start_error, Command, give, crash_command, load, load_fuelled, query, ◌>>=◌, ◌>>◌,
  perform,
}
use eris_cli.Services.{is_service_running}
use eris_cli.Services.Group.{build_services_group}
use eris_cli.Services.Chains.{build_chain_group}
use eris_cli.Command.World.{World}

module _ (D : DockerClient) (w : World D) where
  open w use {viper, sources, env, head, order, fuel}

  unfoldable pub start_one : ServiceDefinition → Command D.State (Unit {0})
  start_one def = elim def.service [
    | none ↦ crash_command
    | some srv ↦ perform D (start_error def.name) (docker_run_service D env) srv def.operations
  ]

  unfoldable pub start_group : List ServiceDefinition → Command D.State (Unit {0})
  unfolding start_one
  start_group [] = give tt
  start_group (def ∷ group) = do start_one def; start_group group

  -- The groups of the names, one after the other.
  unfoldable pub build_groups :
      List Text → ℤ → List ServiceDefinition → Command D.State (List ServiceDefinition)
  build_groups [] number services = give services
  build_groups (name ∷ names) number services = do
    s ← load_fuelled (λ s. build_services_group D viper sources s number fuel name [])
    build_groups names number (services ++ s)

  -- "the top level service should be at the end of the list". Without services the source reads
  -- the entry -1 of an empty slice.
  unfoldable pub start_with_top : Do → List ServiceDefinition → Command D.State (Unit {0})
  unfolding start_group
  start_with_top asked [] = crash_command
  start_with_top asked (def ∷ defs) =
      let top = last_or def defs in
      elim top.service [
        | none ↦ crash_command
        | some srv ↦ start_group (
            init (def ∷ defs)
            ++ record top {
              service = some (record srv {
                environment = srv.environment ++ asked.env;
                links = srv.links ++ asked.links;
              });
            }
              ∷ [])
      ]

  unfoldable pub merge_ops : Operation → ServiceDefinition → ServiceDefinition
  merge_ops ops def = record def { operations = merge_operation def.operations ops }

  unfoldable pub start_service : Do → Command D.State (Unit {0})
  unfolding build_groups merge_ops start_with_top build_chain_group
  start_service asked =
      let args = asked.operations.args ++ asked.services_slice in
      let ops = record asked.operations { args = args } in
      (do
        services ← build_groups args ops.container_number []
        all ← build_chain_group D w asked.chain_name (map (merge_ops ops) services)
        start_with_top asked all)

  -- One round of the loop of `KillService`. The test on the service writes its container into the
  -- operation.
  unfoldable pub kill_one : Do → ℕ → ServiceDefinition → Command D.State (Unit {0})
  kill_one asked timeout def = elim def.service [
    | none ↦ crash_command
    | some srv ↦ do
      (running, ops) ← query (λ s. is_service_running D s srv def.operations)
      if running then perform D perform_error (docker_stop D env timeout) srv ops else give tt
      let remove = perform D perform_error (docker_remove D env asked.rm_d asked.volumes) srv ops
      if asked.rm then remove else give tt
  ]

  unfoldable pub kill_each : Do → ℕ → List ServiceDefinition → Command D.State (Unit {0})
  unfolding kill_one
  kill_each asked timeout [] = give tt
  kill_each asked timeout (def ∷ defs) = do kill_one asked timeout def; kill_each asked timeout defs

  unfoldable pub kill_service : Do → Command D.State (Unit {0})
  unfolding build_groups kill_each
  kill_service asked = do
    services ← build_groups asked.operations.args asked.operations.container_number []
    kill_each asked (if asked.force then 0 else asked.timeout) services

  -- The links and the environment towards the service's own container, if it runs.
  unfoldable pub towards_main : Do → Service → Option ContainerName → Service
  towards_main asked srv none = srv
  towards_main asked srv (some main) =
      let known = if text_eq srv.exec_host [] then srv else record srv {
        environment = srv.environment ++ (srv.exec_host ++ (codes "=" ++ asked.name)) ∷ [];
      } in
      record known { links = known.links ++ (main.full_name ++ (codes ":" ++ asked.name)) ∷ [] }

  unfoldable pub override_links : List Text → Service → Service
  override_links [] srv = srv
  override_links (l ∷ links) srv = record srv { links = l ∷ links }

  unfoldable pub exec_service : Do → Command D.State (Unit {0})
  unfolding towards_main override_links
  exec_service asked =
      let number = asked.operations.container_number in
      (do
        def ← load (λ s. load_service_definition D viper sources s asked.name false number)
        main ← query (λ s. find_service_container D s asked.name number false)
        elim def.service [
          | none ↦ crash_command
          | some srv ↦
              perform D perform_error (docker_exec_service D env)
                (override_links asked.links (towards_main asked srv main))
                (merge_operation def.operations asked.operations)
        ])
