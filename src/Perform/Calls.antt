-- ===== src/Perform/Calls.antt =====
-- The lower half of perform/docker_run.go: single calls of the Docker client, with what the program
-- adds to them.
use eris_cli.Base.{ℕ, Bool, true, false, ◌||◌, Option, none, some, [], ◌∷◌, if◌then◌else◌}
use eris_cli.Base.Int.{ℤ, pos, int_eq}
use eris_cli.Strings.{Text, codes, any_text}
use eris_cli.Docker.{
  ApiContainer, HostConfig, CreateOptions, Container, DockerError, no_such_image, failure, Answer,
  done, failed, DockerClient,
}
use eris_cli.Listing.{parse_containers}
use eris_cli.Dependency.{fix_dirs}
use eris_cli.Configure.{blank_options, pull_options}
use eris_cli.Perform.Action.{
  Env, docker, pull_refused, no_working_dir, exit_status, tragic, tragic_removal, Result, ok, err,
  blocks, Exec, pure, raise, crash, ◌>>=◌, ◌>>◌, gets, call, ask, get_srv, get_ops, set_srv,
  never_ends,
}

module _ (D : DockerClient) (env : Env D) where
  open env use {pull_approve, on_circle, reply, working_dir, eris_root, attaches}

  -- `ContainerExists`, `ContainerRunning` and `DataContainerExists`
  unfoldable pub container_named : Text → Bool → Exec D (Option ApiContainer)
  unfolding gets
  container_named name all = gets D (λ s. parse_containers D s.daemon name all)

  unfoldable pub find_existing : Exec D (Option ApiContainer)
  unfolding container_named get_ops
  find_existing = do ops ← get_ops D; container_named ops.srv_container_name true

  unfoldable pub find_running : Exec D (Option ApiContainer)
  unfolding container_named get_ops
  find_running = do ops ← get_ops D; container_named ops.srv_container_name false

  unfoldable pub find_data : Exec D (Option ApiContainer)
  unfolding container_named get_ops
  find_data = do ops ← get_ops D; container_named ops.data_container_name true

  unfoldable pub pull_image : Text → Exec D (Unit {0})
  unfolding call
  pull_image name = call D (D.pull_image (pull_options name))

  -- "Y", "y", "YES", "Yes" or "yes"
  unfoldable pub assents : Text → Bool
  assents input =
      any_text input (codes "Y" ∷ codes "y" ∷ codes "YES" ∷ codes "Yes" ∷ codes "yes" ∷ [])

  -- What follows the first attempt to create a container.
  unfoldable pub after_create : CreateOptions → Answer Container → Exec D Container
  unfolding pure raise pull_image assents call
  after_create opts (done c) = pure D c
  after_create opts (failed (failure e)) = raise D (docker (failure e))
  after_create opts (failed no_such_image) =
      if pull_approve || assents reply
      then (do pull_image opts.config.image; call D (D.create_container opts))
      else raise D pull_refused

  unfoldable pub create_container : CreateOptions → Exec D Container
  unfolding after_create ask
  create_container opts = do answer ← ask D (D.create_container opts); after_create opts answer

  unfoldable pub start_container : Text → HostConfig → Exec D (Unit {0})
  unfolding call
  start_container name host = call D (D.start_container name host)

  unfoldable pub remove_container : Text → Bool → Exec D (Unit {0})
  unfolding call
  remove_container id volumes =
      call D (D.remove_container (record { id = id; remove_volumes = volumes; force = false }))

  unfoldable pub stop_container : Text → ℕ → Exec D (Unit {0})
  unfolding call
  stop_container id timeout = call D (D.stop_container id timeout)

  unfoldable pub exit_error : Text → ℤ × Option DockerError → Exec D (Unit {0})
  unfolding pure raise
  exit_error id (code, none) =
      if int_eq code (pos 0) then pure D tt else raise D (exit_status id code none)
  exit_error id (code, some e) =
      if int_eq code (pos 0) then raise D (docker e) else raise D (exit_status id code (some e))

  unfoldable pub wait_container : Text → Exec D (Unit {0})
  unfolding exit_error
  wait_container id = do
    answer ← λ s. let (r, t) = D.wait_container id s.daemon in (ok r, record s { daemon = t })
    exit_error id answer

  unfoldable pub logs_container : Text → Bool → Text → Exec D (Unit {0})
  unfolding call
  logs_container id follow tail = call D (D.write_logs id follow tail)

  -- The goroutine that attaches to the container signals when it has; the function waits for that.
  unfoldable pub await_attached : Text → Exec D (Unit {0})
  await_attached name s = if attaches name s.daemon then (ok tt, s) else (blocks, s)

  unfoldable pub start_interactive_container : CreateOptions → Exec D (Unit {0})
  unfolding start_container wait_container
  start_interactive_container opts = do
    start_container opts.name opts.host_config
    await_attached opts.name
    wait_container opts.name

  -- `FixDirs` on the service's volumes; on an error it leaves none.
  unfoldable pub fix_volumes : Exec D (Unit {0})
  unfolding get_srv set_srv pure raise
  fix_volumes = do
    srv ← get_srv D
    let (volumes, lost) = fix_dirs eris_root working_dir srv.volumes
    set_srv D (record srv { volumes = volumes })
    if lost then raise D no_working_dir else pure D tt

  -- `createContainer` on the zero options: the name of the image cannot be read.
  unfoldable pub after_create_zero : Answer Container → Exec D Container
  unfolding pure raise crash
  after_create_zero (done c) = pure D c
  after_create_zero (failed (failure e)) = raise D (docker (failure e))
  after_create_zero (failed no_such_image) = crash D

  unfoldable pub create_zero : Exec D Container
  unfolding after_create_zero ask
  create_zero = do answer ← ask D (D.create_container blank_options); after_create_zero answer

  -- The removal that `DockerRunData` and `DockerExecData` defer. It is made after a panic too.
  unfoldable pub after_removal : {A : Type 0} → Result A → Result (Unit {0}) → Result A
  after_removal (ok a) (err (docker e)) = if on_circle then ok a else err (tragic_removal e)
  after_removal (err e) (err (docker f)) = if on_circle then err e else err (tragic e f)
  after_removal r removed = r

  unfoldable pub with_removal : {A : Type 0} → Text → Exec D A → Exec D A
  unfolding after_removal remove_container
  with_removal name body s =
      let (r, t) = body s in
      let (removed, u) = remove_container name true t in
      if never_ends r then (r, t) else (after_removal r removed, u)
