-- ===== src/Configure/Data.antt =====
-- `configureVolumesFromContainer` and `configureDataContainer` of perform/docker_run.go, and the
-- options of its `pullImage`.
use eris_cli.Base.{
  true, false, Option, none, some, [], ◌∷◌, ◌++◌, ◌||◌, length, ltb, ◌==◌, if◌then◌else◌,
}
use eris_cli.Base.Int.{pos}
use eris_cli.Strings.{Text, codes, text_eq, split, last_or, fields}
use eris_cli.Dict.{Dict, insert_all}
use eris_cli.Labels.{set_label, or_empty}
use eris_cli.Files.{first_or}
use eris_cli.Names.{type_data}
use eris_cli.Definitions.{Operation, Service}
use eris_cli.Docker.{Config, HostConfig, CreateOptions, unset, PullOptions}

abbrev blank_host_config : HostConfig
blank_host_config = record {
  binds = [];
  links = [];
  publish_all_ports = false;
  privileged = false;
  readonly_rootfs = false;
  dns = [];
  dns_search = [];
  volumes_from = [];
  cap_add = [];
  cap_drop = [];
  restart_policy = unset;
  network_mode = [];
  port_bindings = [];
}

abbrev blank_config : Config
blank_config = record {
  hostname = [];
  domainname = [];
  user = [];
  memory = pos 0;
  cpu_shares = pos 0;
  attach_stdin = false;
  attach_stdout = false;
  attach_stderr = false;
  tty = false;
  open_stdin = false;
  env = [];
  labels = none;
  image = [];
  network_disabled = false;
  entrypoint = [];
  cmd = [];
  working_dir = [];
  exposed_ports = [];
  volumes = [];
}

-- What the zero options send to the daemon.
abbrev pub blank_options : CreateOptions
blank_options = record { name = []; config = blank_config; host_config = blank_host_config }

-- The service may be `nil`. `root` is `ErisContainerRoot`.
unfoldable pub configure_volumes_from_container : Text → Operation → Option Service → CreateOptions
configure_volumes_from_container root ops service =
    let config : Config = record blank_config {
      image = codes "quay.io/eris/base";
      user = codes "root";
      working_dir = root;
      attach_stdout = true;
      attach_stderr = true;
      attach_stdin = true;
      tty = true;
      labels = ops.labels;
      open_stdin = ops.interactive;
      cmd = if ops.interactive then codes "/bin/bash" ∷ [] else ops.args;
    } in
    let host : HostConfig = record blank_host_config {
      volumes_from = ops.data_container_name ∷ [];
    } in
    let name = codes "eris_exec_" ++ ops.data_container_name in
    elim service [
      | none ↦ record { name = name; config = config; host_config = host }
      | some srv ↦ record {
        name = name;
        config = record config {
          image = srv.image;
          user = srv.user;
          env = srv.environment;
          entrypoint = fields srv.entry_point;
        };
        host_config = record host { links = srv.links };
      }
    ]

-- A service with no image gets the image of data containers.
unfoldable pub data_image : Service → Service
data_image srv =
    if text_eq srv.image [] then record srv { image = codes "quay.io/eris/data" } else srv

-- The options of a data container. The name of the service's container is given if it is connected
-- to one.
unfoldable pub configure_data_container : Service → Operation → Option Text → CreateOptions
unfolding data_image
configure_data_container srv ops main =
    let copied = insert_all (or_empty ops.labels) [] in
    let labels : Dict Text = elim main [
      | none ↦ copied
      | some main_name ↦
          set_label (set_label copied (codes "TYPE") type_data) (codes "SERVICE") main_name
    ] in
    record {
      name = ops.data_container_name;
      config = record blank_config {
        image = (data_image srv).image;
        user = srv.user;
        labels = some labels;
        network_disabled = true;
        entrypoint = codes "true" ∷ [];
      };
      host_config = blank_host_config;
    }

-- What the same function does to the options of the service's container.
unfoldable pub with_data_volumes : Operation → CreateOptions → CreateOptions
with_data_volumes ops opts = record opts {
  host_config = record opts.host_config {
    volumes_from = opts.host_config.volumes_from ++ ops.data_container_name ∷ [];
  };
}

-- The options of `pullImage`.
unfoldable pub pull_options : Text → PullOptions
pull_options name =
    let name_split = split name b':' in
    let repository = first_or [] name_split in
    let repo_split = split repository b'/' in
    record {
      repository = repository;
      registry = if ltb 2 (length repo_split) then first_or [] repo_split else [];
      tag =
          if length name_split == 2 || length name_split == 3
          then last_or [] name_split
          else codes "latest";
    }
