-- ===== src/Services/Manage.antt =====
-- `UpdateService`, `LogsService`, `InspectService` and the containers' part of `RmService`
-- (services/manage.go). The removal of definition files is in Services/Definitions.
use eris_cli.Base.{Bool, false, none, some, List, [], ◌∷◌, ◌++◌, if◌then◌else◌}
use eris_cli.Base.Int.{ℤ}
use eris_cli.Strings.{Text}
use eris_cli.Definitions.{Operation, Service}
use eris_cli.Definitions.Do.{Do}
use eris_cli.Docker.{DockerClient}
use eris_cli.Loaders.Service.{load_service_definition}
use eris_cli.Perform.Lifecycle.{docker_remove, docker_rebuild, docker_logs, docker_inspect}
use eris_cli.Command.{
  perform_error, Command, give, crash_command, load, query, ◌>>=◌, ◌>>◌, perform,
}
use eris_cli.Command.World.{World}
use eris_cli.Services.{is_service_existing}

module _ (D : DockerClient) (w : World D) where
  open w use {viper, sources, env}

  -- Loads the definition of a name, and works on its service and operation.
  unfoldable pub with_service :
      Text → ℤ → (Service → Operation → Command D.State (Unit {0})) → Command D.State (Unit {0})
  with_service name number action = do
    def ← load (λ s. load_service_definition D viper sources s name false number)
    elim def.service [ none ↦ crash_command | some srv ↦ action srv def.operations ]

  unfoldable pub inspect_service : Do → Command D.State (Unit {0})
  unfolding with_service
  inspect_service asked =
      with_service asked.name asked.operations.container_number
        (perform D perform_error (docker_inspect D env))

  unfoldable pub logs_service : Do → Bool → Text → Command D.State (Unit {0})
  unfolding with_service
  logs_service asked follow tail =
      with_service asked.name asked.operations.container_number
        (perform D perform_error (docker_logs D env follow tail))

  unfoldable pub update_service : Do → Command D.State (Unit {0})
  unfolding with_service
  update_service asked = with_service asked.name asked.operations.container_number (λ srv ops.
      perform D perform_error (docker_rebuild D env asked.pull asked.timeout)
        (record srv {
          environment = srv.environment ++ asked.env;
          links = srv.links ++ asked.links;
        })
        ops)

  -- One round of the loop of `RmService`. The test writes the container into the operation.
  unfoldable pub rm_service_container : Do → Text → Command D.State (Unit {0})
  unfolding with_service
  rm_service_container asked name =
      with_service name asked.operations.container_number (λ srv given. do
        (existing, ops) ← query (λ s. is_service_existing D s srv given)
        let remove = perform D perform_error (docker_remove D env asked.rm_d asked.volumes) srv ops
        if existing then remove else give tt)

  unfoldable pub rm_service_containers : Do → List Text → Command D.State (Unit {0})
  unfolding rm_service_container
  rm_service_containers asked [] = give tt
  rm_service_containers asked (name ∷ names) = do
    rm_service_container asked name
    rm_service_containers asked names
