-- ===== src/Configure/Service.antt =====
-- `configureServiceContainer` and `configureInteractiveContainer` of perform/docker_run.go.
pub mod Ports
use eris_cli.Base.{
  ℕ, ◌-◌, Bool, true, false, Option, none, some, List, [], ◌∷◌, ◌++◌, get_elem?, take, drop, ◌||◌,
  length, leb, ltb, ◌==◌, if◌then◌else◌,
}
use eris_cli.Base.Int.{ℤ, pos, int_eq}
use eris_cli.Strings.{Text, codes, text_eq, split, join, contains, last_or, fields}
use eris_cli.Strings.Decimal.{atoi}
use eris_cli.Dict.{Dict, insert, insert_all}
use eris_cli.Labels.{set_label, or_empty}
use eris_cli.Dependency.{port_and_protocol}
use eris_cli.Files.{first_or}
use eris_cli.Names.{type_data}
use eris_cli.Definitions.{Operation, Service}
use eris_cli.Docker.{
  Config, HostConfig, CreateOptions, PortBinding, RestartPolicy, unset, never_restart,
  always_restart, restart_on_failure, PullOptions,
}

-- An index out of range panics. A number of restarts that cannot be read gives the zero options,
-- which hold two `nil` pointers.
pub data Configured : Type 0 where
  options : CreateOptions → Configured
  zero_options : Configured
  panic : Configured

pub data Restart : Type 0 where
  policy : RestartPolicy → Restart
  bad_number : Restart
  no_number : Restart

restart_policy : Text → Restart
restart_policy restart =
    if text_eq restart (codes "always")
    then policy always_restart
    else if contains restart (codes "max")
    then elim (get_elem? (split restart b':') 1) [
      | none ↦ no_number
      | some attempts ↦ elim (atoi attempts) [
        | none ↦ bad_number
        | some times ↦ policy (restart_on_failure times)
      ]
    ]
    else policy never_restart

-- The host's side of one entry of `srv.Ports`, from its parts at the colons.
host_binding : List Text → PortBinding
host_binding p_s =
    let count = length p_s in
    if ltb 1 count
    then record {
      host_port = first_or [] (drop (count - 2) p_s);
      host_ip =
          if count == 3
          then first_or [] p_s
          else if ltb 3 count
          then join (take (count - 2) p_s) (codes ":")
          else [];
    }
    else record { host_port = first_or [] p_s; host_ip = [] }

container_port : Text → Text
container_port port = port_and_protocol (last_or [] (split port b':'))

expose_ports : List Text → Dict (Unit {0}) → Dict (Unit {0})
expose_ports [] exposed = exposed
expose_ports (port ∷ ports) exposed = expose_ports ports (insert (container_port port) tt exposed)

bind_ports : List Text → Dict (List PortBinding) → Dict (List PortBinding)
bind_ports [] bindings = bindings
bind_ports (port ∷ ports) bindings =
    bind_ports ports (insert (container_port port) (host_binding (split port b':') ∷ []) bindings)

-- `none` is an index out of range: a volume with no colon.
container_volumes : List Text → Dict (Unit {0}) → Option (Dict (Unit {0}))
container_volumes [] volumes = some volumes
container_volumes (vol ∷ vols) volumes = elim (get_elem? (split vol b':') 1) [
  | none ↦ none
  | some path ↦ container_volumes vols (insert path tt volumes)
]

abbrev words_or_none : Text → List Text
words_or_none s = if text_eq s [] then [] else fields s

pub service_options : Service → Operation → RestartPolicy → Dict (Unit {0}) → CreateOptions
service_options srv ops restart volumes = record {
  name = ops.srv_container_name;
  config = record {
    hostname = srv.host_name;
    domainname = srv.domain_name;
    user = srv.user;
    memory = srv.mem_limit;
    cpu_shares = srv.cpu_shares;
    attach_stdin = false;
    attach_stdout = false;
    attach_stderr = false;
    tty = true;
    open_stdin = false;
    env = srv.environment;
    labels = ops.labels;
    image = srv.image;
    network_disabled = false;
    entrypoint = words_or_none srv.entry_point;
    cmd = words_or_none srv.command;
    working_dir = srv.work_dir;
    exposed_ports = if ops.publish_all_ports then [] else expose_ports srv.ports [];
    volumes = volumes;
  };
  host_config = record {
    binds = srv.volumes;
    links = srv.links;
    publish_all_ports = ops.publish_all_ports;
    privileged = ops.privileged;
    readonly_rootfs = false;
    dns = srv.dns;
    dns_search = srv.dns_search;
    volumes_from = srv.volumes_from;
    cap_add = ops.cap_add;
    cap_drop = ops.cap_drop;
    restart_policy = restart;
    network_mode = codes "bridge";
    port_bindings = if ops.publish_all_ports then [] else bind_ports srv.ports [];
  };
}

-- The function sets a container number of 0 to 1 in the caller's operation.
unfoldable pub numbered : Operation → Operation
numbered ops =
    if int_eq ops.container_number (pos 0) then record ops { container_number = pos 1 } else ops

unfoldable pub configure_service_container : Service → Operation → Configured
unfolding restart_policy service_options container_volumes expose_ports bind_ports container_port
    host_binding
configure_service_container srv ops = elim (restart_policy ops.restart) [
  | no_number ↦ panic
  | bad_number ↦ zero_options
  | policy p ↦ elim (container_volumes srv.volumes []) [
    | none ↦ panic
    | some volumes ↦ options (service_options srv ops p volumes)
  ]
]

-- The directories are those of the program on the host and in a container, already joined with the
-- operation's volume by `filepath.Join`.
interactive_options : Text → Text → Service → Operation → CreateOptions → CreateOptions
interactive_options host_dir container_dir srv ops opts =
    let shell = if ltb 0 (length ops.args) then ops.args else codes "/bin/bash" ∷ [] in
    let config : Config = record opts.config {
      user = codes "root";
      open_stdin = true;
      tty = true;
      attach_stdout = true;
      attach_stderr = true;
      attach_stdin = true;
      entrypoint = if ops.interactive then shell else opts.config.entrypoint;
      cmd = if ops.interactive then opts.config.cmd else ops.args;
    } in
    let bind = host_dir ++ (codes ":" ++ container_dir) in
    record {
      name = codes "eris_interactive_" ++ opts.name;
      config = config;
      host_config = record opts.host_config {
        binds =
            if text_eq ops.volume []
            then opts.host_config.binds
            else opts.host_config.binds ++ bind ∷ [];
        links = srv.links;
      };
    }

-- With the zero options the first assignment through `opts.Config` panics.
unfoldable pub configure_interactive_container : Text → Text → Service → Operation → Configured
unfolding configure_service_container interactive_options
configure_interactive_container host_dir container_dir srv ops =
    elim (configure_service_container srv ops) [
      | options opts ↦ options (interactive_options host_dir container_dir srv ops opts)
      | zero_options ↦ panic
      | panic ↦ panic
    ]
