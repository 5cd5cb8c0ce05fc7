-- ===== src/Perform/Rename.antt =====
-- `DockerRename`: a container is removed and made again under another name.
use eris_cli.Base.{none, Bool, true, some, List, [], ◌∷◌, if◌then◌else◌}
use eris_cli.Strings.{Text, codes, is_some, trim_suffix}
use eris_cli.Dict.{Dict}
use eris_cli.Names.{containers_name}
use eris_cli.Definitions.{Operation}
use eris_cli.Docker.{Container, HostConfig, Config, done, failed, DockerClient}
use eris_cli.Labels.{make_labels}
use eris_cli.Perform.Action.{
  Env, docker, container_exists, Exec, pure, raise, ◌>>=◌, ◌>>◌, gets, ask, call, get_ops, set_ops,
}
use eris_cli.Perform.Calls.{find_running}

-- `strings.TrimSuffix` of `:ro`, then of `:rw`
unfoldable pub trim_mode : Text → Text
trim_mode name = trim_suffix (trim_suffix name (codes ":ro")) (codes ":rw")

-- `Labels` writes into the operation's map, if there is one.
unfoldable pub written_labels : Operation → Dict Text → Operation
written_labels ops labels = elim ops.labels [
  | none ↦ ops
  | some _ ↦ record ops { labels = some labels }
]

module _ (D : DockerClient) (env : Env D) where
  open env use {git_user}

  -- The loop over `HostConfig.VolumesFrom`.
  unfoldable pub existing_volumes : D.State → List Text → List Text
  existing_volumes daemon [] = []
  existing_volumes daemon (name ∷ names) =
      let rest = existing_volumes daemon names in
      elim (D.inspect_container name daemon) [ failed e ↦ rest | done c ↦ trim_mode name ∷ rest ]

  -- Both errors are only logged.
  unfoldable pub try_stop : Bool → Text → Exec D (Unit {0})
  try_stop was_running id =
      if was_running then (do ask D (D.stop_container id 5); pure D tt) else pure D tt

  unfoldable pub try_start : Bool → Text → HostConfig → Exec D (Unit {0})
  try_start was_running id host =
      if was_running then (do ask D (D.start_container id host); pure D tt) else pure D tt

  -- What follows the two checks.
  unfoldable pub replace_container : Text → Text → Container → Exec D (Unit {0})
  unfolding try_stop try_start existing_volumes written_labels
  replace_container new_name long_new_name container = do
    running ← find_running D env
    try_stop (is_some running) container.id
    call D (D.remove_container (record { id = container.id; remove_volumes = true; force = true }))
    volumes_from ← gets D (λ s. existing_volumes s.daemon container.host_config.volumes_from)
    ops ← get_ops D
    let host : HostConfig = record (container.host_config) { volumes_from = volumes_from }
    let labels = make_labels git_user new_name ops
    set_ops D (written_labels ops labels)
    let config : Config = record (container.config) { labels = some labels }
    created ←
        call D (
          D.create_container (record { name = long_new_name; config = config; host_config = host }))
    try_start (is_some running) created.id host

  unfoldable pub docker_rename : Text → Exec D (Unit {0})
  unfolding replace_container
  docker_rename new_name = do
    ops ← get_ops D
    let long_new_name = containers_name ops.container_type new_name ops.container_number
    found ← gets D (λ s. D.inspect_container ops.srv_container_name s.daemon)
    elim found [
      | failed e ↦ raise D (docker e)
      | done container ↦ do
        taken ← gets D (λ s. D.inspect_container long_new_name s.daemon)
        elim taken [
          | done _ ↦ raise D container_exists
          | failed _ ↦ replace_container new_name long_new_name container
        ]
    ]
