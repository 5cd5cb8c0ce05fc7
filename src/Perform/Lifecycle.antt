-- ===== src/Perform/Lifecycle.antt =====
-- `DockerStop`, `DockerRemove`, `DockerPull`, `DockerRebuild`, `DockerLogs` and `DockerInspect`.
use eris_cli.Base.{ℕ, Bool, true, false, none, some, [], if◌then◌else◌}
use eris_cli.Strings.{Text, is_some}
use eris_cli.Docker.{DockerClient, ApiContainer, done, failed}
use eris_cli.Configure.{
  Configured, options, zero_options, panic, numbered, configure_service_container, blank_options,
}
use eris_cli.Perform.Action.{
  Env, docker, Exec, pure, raise, crash, ◌>>=◌, ◌>>◌, get_srv, get_ops, set_ops, gets,
}
use eris_cli.Perform.Calls.{
  find_existing, find_running, find_data, create_container, start_container, remove_container,
  stop_container, fix_volumes, create_zero, pull_image, logs_container,
}
use eris_cli.Perform.Service.{docker_run_service, share_volumes}

module _ (D : DockerClient) (env : Env D) where
  unfoldable pub docker_stop : ℕ → Exec D (Unit {0})
  docker_stop timeout = do
    found ← find_existing D env
    elim found [ none ↦ pure D tt | some container ↦ stop_container D env container.id timeout ]

  unfoldable pub remove_data : Bool → Exec D (Unit {0})
  remove_data volumes = do
    found ← find_data D env
    elim found [ none ↦ pure D tt | some srv ↦ remove_container D env srv.id volumes ]

  unfoldable pub docker_remove : Bool → Bool → Exec D (Unit {0})
  unfolding remove_data
  docker_remove with_data volumes = do
    found ← find_existing D env
    elim found [
      | none ↦ pure D tt
      | some service ↦ do
        remove_container D env service.id volumes
        if with_data then remove_data volumes else pure D tt
    ]

  -- Stops the container if it runs, removes it, and says whether it ran.
  unfoldable pub stop_and_remove : ApiContainer → ℕ → Bool → Exec D Bool
  unfolding docker_stop
  stop_and_remove service timeout volumes = do
    running ← find_running D env
    if is_some running then docker_stop timeout else pure D tt
    remove_container D env service.id volumes
    pure D (is_some running)

  unfoldable pub docker_pull : Exec D (Unit {0})
  unfolding stop_and_remove
  docker_pull = do
    found ← find_existing D env
    was_running ← elim found [
      | none ↦ pure D false
      | some service ↦ stop_and_remove service 10 false
    ]
    srv ← get_srv D
    pull_image D env srv.image
    if was_running then docker_run_service D env else pure D tt

  unfoldable pub recreate : Configured → Bool → Exec D (Unit {0})
  recreate configured was_running = elim configured [
    | panic ↦ crash D
    | zero_options ↦ do
      fix_volumes D env
      create_zero D env
      if was_running then start_container D env [] blank_options.host_config else pure D tt
    | options opts ↦ do
      fix_volumes D env
      srv ← get_srv D
      let shared = share_volumes D env srv.volumes opts
      create_container D env shared
      if was_running then start_container D env opts.name shared.host_config else pure D tt
  ]

  unfoldable pub docker_rebuild : Bool → ℕ → Exec D (Unit {0})
  unfolding stop_and_remove docker_pull recreate
  docker_rebuild pull timeout = do
    found ← find_existing D env
    elim found [
      | none ↦ pure D tt
      | some service ↦ do
        was_running ← stop_and_remove service timeout true
        if pull then docker_pull else pure D tt
        srv ← get_srv D
        ops ← get_ops D
        set_ops D (numbered ops)
        recreate (configure_service_container srv ops) was_running
    ]

  unfoldable pub docker_logs : Bool → Text → Exec D (Unit {0})
  docker_logs follow tail = do
    found ← find_existing D env
    elim found [ none ↦ pure D tt | some service ↦ logs_container D env service.id follow tail ]

  -- The report that is printed is not modelled; its error is dropped.
  unfoldable pub docker_inspect : Exec D (Unit {0})
  docker_inspect = do
    found ← find_existing D env
    elim found [
      | none ↦ pure D tt
      | some service ↦ do
        answer ← gets D (λ s. D.inspect_container service.id s.daemon)
        elim answer [ done _ ↦ pure D tt | failed e ↦ raise D (docker e) ]
    ]
