-- ===== src/Perform/Service.antt =====
-- `DockerRunService` and `DockerExecService`.
use eris_cli.Base.{Bool, true, false, none, some, List, [], ◌∷◌, ◌++◌, if◌then◌else◌}
use eris_cli.Strings.{Text, codes, text_eq}
use eris_cli.Docker.{CreateOptions, DockerClient}
use eris_cli.Configure.{
  options, zero_options, panic, numbered, configure_service_container,
  configure_interactive_container, configure_data_container, with_data_volumes, data_image,
}
use eris_cli.Perform.Action.{
  Env, never_ends, Exec, pure, crash, ◌>>=◌, ◌>>◌, get_srv, get_ops, set_srv, set_ops,
}
use eris_cli.Perform.Calls.{
  find_existing, find_running, find_data, create_container, start_container, remove_container,
  start_interactive_container, fix_volumes, create_zero,
}

module _ (D : DockerClient) (env : Env D) where
  open env use {host_volume, container_volume, spare}

  -- The options share the service's slice of volumes, so they see its fixed entries.
  unfoldable pub share_volumes : List Text → CreateOptions → CreateOptions
  share_volumes volumes opts = record opts {
    host_config = record opts.host_config { binds = volumes };
  }

  -- A volume that was appended stays; the entries before it are shared if they were not copied.
  unfoldable pub share_interactive : Text → List Text → CreateOptions → CreateOptions
  unfolding share_volumes
  share_interactive volume volumes opts =
      let bind = host_volume volume ++ (codes ":" ++ container_volume volume) in
      if text_eq volume []
      then share_volumes volumes opts
      else if spare
      then share_volumes (volumes ++ bind ∷ []) opts
      else opts

  -- The data container of a service with `AutoData`.
  unfoldable pub setup_data : CreateOptions → Exec D CreateOptions
  setup_data opts = do
    srv ← get_srv D
    ops ← get_ops D
    set_srv D (data_image srv)
    found ← find_data D env
    elim found [
      | some _ ↦ pure D tt
      | none ↦ do
        create_container D env (configure_data_container srv ops (some opts.name))
        pure D tt
    ]
    pure D (with_data_volumes ops opts)

  unfoldable pub setup_data_if : Bool → CreateOptions → Exec D CreateOptions
  unfolding setup_data
  setup_data_if true opts = setup_data opts
  setup_data_if false opts = pure D opts

  unfoldable pub ensure_created : CreateOptions → Exec D (Unit {0})
  ensure_created opts = do
    found ← find_existing D env
    elim found [ some _ ↦ pure D tt | none ↦ do create_container D env opts; pure D tt ]

  unfoldable pub run_configured : CreateOptions → Exec D (Unit {0})
  unfolding share_volumes setup_data_if ensure_created
  run_configured opts = do
    fix_volumes D env
    srv ← get_srv D
    opts ← setup_data_if srv.auto_data (share_volumes srv.volumes opts)
    ensure_created opts
    start_container D env opts.name opts.host_config
    ops ← get_ops D
    if ops.remove then remove_container D env opts.name false else pure D tt

  -- Reading a field through the `nil` pointers of the zero options panics.
  unfoldable pub run_zero : Exec D (Unit {0})
  run_zero = do
    fix_volumes D env
    srv ← get_srv D
    if srv.auto_data then (do set_srv D (data_image srv); crash D) else do
      found ← find_existing D env
      elim found [ some _ ↦ crash D | none ↦ do create_zero D env; crash D ]

  unfoldable pub docker_run_service : Exec D (Unit {0})
  unfolding run_configured run_zero
  docker_run_service = do
    running ← find_running D env
    elim running [
      | some _ ↦ pure D tt
      | none ↦ do
        srv ← get_srv D
        ops ← get_ops D
        set_ops D (numbered ops)
        elim (configure_service_container srv ops) [
          | options opts ↦ run_configured opts
          | zero_options ↦ run_zero
          | panic ↦ crash D
        ]
    ]

  -- The deferred removal of the interactive container, whose error is dropped.
  unfoldable pub with_quiet_removal : Text → Exec D (Unit {0}) → Exec D (Unit {0})
  with_quiet_removal name body s =
      let (r, t) = body s in
      if never_ends r then (r, t) else (r, (remove_container D env name false t).1)

  unfoldable pub exec_configured : CreateOptions → Exec D (Unit {0})
  unfolding share_interactive setup_data_if with_quiet_removal
  exec_configured opts = do
    fix_volumes D env
    srv ← get_srv D
    ops ← get_ops D
    opts ← setup_data_if srv.auto_data (share_interactive ops.volume srv.volumes opts)
    create_container D env opts
    with_quiet_removal opts.name (start_interactive_container D env opts)

  unfoldable pub docker_exec_service : Exec D (Unit {0})
  unfolding exec_configured
  docker_exec_service = do
    srv ← get_srv D
    ops ← get_ops D
    set_ops D (numbered ops)
    elim (configure_interactive_container (host_volume ops.volume) (container_volume ops.volume) srv
        ops) [ options opts ↦ exec_configured opts | zero_options ↦ crash D | panic ↦ crash D ]
