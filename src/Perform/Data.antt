-- ===== src/Perform/Data.antt =====
-- `DockerCreateData`, `DockerRunData` and `DockerExecData`.
use eris_cli.Base.{true, none, some, Option}
use eris_cli.Strings.{Text, codes}
use eris_cli.Definitions.{Service, blank_service}
use eris_cli.Docker.{CreateOptions, DockerClient}
use eris_cli.Configure.{configure_volumes_from_container, configure_data_container}
use eris_cli.Perform.Action.{Env, container_exists, Exec, pure, raise, ◌>>=◌, ◌>>◌, gets, get_ops}
use eris_cli.Perform.Calls.{
  find_existing, create_container, start_container, wait_container, logs_container,
  start_interactive_container, with_removal,
}

module _ (D : DockerClient) (env : Env D) where
  open env use {container_root, buffer}

  unfoldable pub docker_create_data : Exec D (Unit {0})
  docker_create_data = do
    found ← find_existing D env
    ops ← get_ops D
    elim found [
      | some _ ↦ raise D container_exists
      | none ↦ do
        create_container D env (configure_data_container blank_service ops none)
        pure D tt
    ]

  -- What `DockerRunData` does with the container that it has made.
  unfoldable pub run_and_log : CreateOptions → Exec D (Option Text)
  run_and_log opts = do
    start_container D env opts.name opts.host_config
    wait_container D env opts.name
    logs_container D env opts.name true (codes "all")
    gets D (λ s. buffer s.daemon)

  -- The service may be `nil`.
  unfoldable pub docker_run_data : Option Service → Exec D (Option Text)
  unfolding run_and_log
  docker_run_data service = do
    ops ← get_ops D
    let opts = configure_volumes_from_container container_root ops service
    create_container D env opts
    with_removal D env opts.name (run_and_log opts)

  unfoldable pub docker_exec_data : Option Service → Exec D (Unit {0})
  docker_exec_data service = do
    ops ← get_ops D
    let opts = configure_volumes_from_container container_root ops service
    create_container D env opts
    with_removal D env opts.name (start_interactive_container D env opts)

  -- A run whose text is dropped.
  unfoldable pub docker_run_data_only : Option Service → Exec D (Unit {0})
  docker_run_data_only service = do docker_run_data service; pure D tt
