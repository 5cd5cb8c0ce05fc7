-- ===== src/Perform/Renamed.antt =====
-- What `DockerRename` creates, and which of its volumes it loses.
use eris_cli.Base.{
  ◌≡◌, refl, Bool, true, false, some, Option, List, [], ◌∷◌, ◌++◌, map, ap, sym, ◌∙◌,
}
use eris_cli.Strings.{Text, codes, is_some}
use eris_cli.Dict.{Dict}
use eris_cli.Names.{containers_name}
use eris_cli.Docker.{CreateOptions, DockerClient, Container, DockerError, done, failed, HostConfig}
use eris_cli.Labels.{make_labels}
use eris_cli.Listing.{parse_containers}
use eris_cli.Perform.Action.{Env, Session, ok, pure, ask, get_ops, set_ops, call, returned, gets}
use eris_cli.Perform.Steps.{continue-ok, returned-done, KeepsOps}
use eris_cli.Perform.Calls.{find_running}
use eris_cli.Perform.Rename.{
  written_labels, docker_rename, existing_volumes, replace_container, try_stop,
}

module _ (D : DockerClient) (env : Env D) where
  open env use {git_user}

  -- No container has a name with a mode behind it, so `VolumesFrom` loses every volume that is
  -- mounted with the mode `rw`, whether its container exists or not.
  pub existing_volumes_loses_modes :
      (daemon : D.State) (names : List Text)
      → ((name : Text)
          → (e : DockerError) × (D.inspect_container (name ++ codes ":rw") daemon ≡ failed e))
      → existing_volumes D env daemon (map (λ name. name ++ codes ":rw") names) ≡ []
  unfolding existing_volumes
  existing_volumes_loses_modes daemon [] h = refl
  existing_volumes_loses_modes daemon (name ∷ names) h =
      rw ((h name).1, existing_volumes_loses_modes daemon names h) refl

  -- A container was created under the new name and with the new labels, else as the old one was.
  pub record CreatedAs (container : Container) (long_name : Text) (labels : Option (Dict Text))
      : Type 0 where
    pub options : CreateOptions
    pub before : D.State
    pub created : Container
    pub after : D.State
    pub accepted : D.create_container options before ≡ (done created, after)
    pub name : options.name ≡ long_name
    pub config : options.config ≡ record container.config { labels = labels }
    pub binds : options.host_config.binds ≡ container.host_config.binds
    pub links : options.host_config.links ≡ container.host_config.links
    pub ports : options.host_config.port_bindings ≡ container.host_config.port_bindings

  try_stop-KeepsOps : (was_running : Bool) (id : Text) → KeepsOps (try_stop D env was_running id)
  unfolding try_stop pure ask
  try_stop-KeepsOps true id s = refl
  try_stop-KeepsOps false id s = refl

  replace_container-CreatedAs :
      (new_name long_name : Text) (container : Container) (s t : Session D)
      → replace_container D env new_name long_name container s ≡ (ok tt, t)
      → CreatedAs container long_name (some (make_labels git_user new_name s.ops))
  unfolding replace_container get_ops set_ops gets find_running call
  replace_container-CreatedAs new_name long_name container s t h =
      let running = is_some (parse_containers D s.daemon s.ops.srv_container_name false) in
      let s1 = (try_stop D env running container.id s).1 in
      let (_, _, g1) = continue-ok (try_stop D env running container.id s).0 _ s1 t tt h in
      let remove =
        D.remove_container (record { id = container.id; remove_volumes = true; force = true })
          s1.daemon in
      let s2 : Session D = record s1 { daemon = remove.1 } in
      let (_, _, g2) = continue-ok (returned D remove.0) _ s2 t tt g1 in
      let host : HostConfig = record (container.host_config) {
        volumes_from = existing_volumes D env s2.daemon container.host_config.volumes_from;
      } in
      let opts : CreateOptions = record {
        name = long_name;
        config = record (container.config) { labels = some (make_labels git_user new_name s1.ops) };
        host_config = host;
      } in
      let (made, accepted, _) =
        continue-ok (returned D (D.create_container opts s2.daemon).0) _
          (record s2 {
            daemon = (D.create_container opts s2.daemon).1;
            ops = written_labels s1.ops (make_labels git_user new_name s1.ops);
          })
          t tt g2 in
      record {
        options = opts;
        before = s2.daemon;
        created = made;
        after = (D.create_container opts s2.daemon).1;
        accepted =
            ap (λ a. (a, (D.create_container opts s2.daemon).1)) (returned-done D _ made accepted);
        name = refl;
        config =
            ap
              (λ ops. record (container.config) {
                labels = some (make_labels git_user new_name ops);
              })
              (try_stop-KeepsOps running container.id s);
        binds = refl;
        links = refl;
        ports = refl;
      }

  docker_rename-step :
      (new_name : Text) (container : Container) (e : DockerError) (s : Session D)
      → D.inspect_container s.ops.srv_container_name s.daemon ≡ done container
      → D.inspect_container
          (containers_name s.ops.container_type new_name s.ops.container_number)
          s.daemon
        ≡ failed e
      → docker_rename D env new_name s
        ≡ replace_container D env new_name
            (containers_name s.ops.container_type new_name s.ops.container_number)
            container
            s
  unfolding docker_rename get_ops gets
  docker_rename-step new_name container e s known free = rw (known, free) refl

  -- If a rename of a container succeeds, then the daemon has created one under the new long name,
  -- with the labels of the new name, and else with the old one's configuration, directories, links
  -- and ports.
  pub docker_rename-CreatedAs :
      (new_name : Text) (container : Container) (e : DockerError) (s t : Session D)
      → D.inspect_container s.ops.srv_container_name s.daemon ≡ done container
      → D.inspect_container
          (containers_name s.ops.container_type new_name s.ops.container_number)
          s.daemon
        ≡ failed e
      → docker_rename D env new_name s ≡ (ok tt, t)
      → CreatedAs container
          (containers_name s.ops.container_type new_name s.ops.container_number)
          (some (make_labels git_user new_name s.ops))
  docker_rename-CreatedAs new_name container e s t known free h =
      replace_container-CreatedAs new_name _ container s t
        (sym (docker_rename-step new_name container e s known free) ∙ h)
