-- ===== src/Tests/Containers.antt =====
-- Containers in a daemon in memory.
use eris_cli.Base.{◌≡◌, ◌⊎◌, refl, ◌≢◌, ◌∙◌, ap, true, false, none, some, [], ◌∷◌}
use eris_cli.Base.Int.{pos}
use eris_cli.Strings.{Text, codes, text_eq, is_some}
use eris_cli.Definitions.{Operation, blank_operation, Service, blank_service}
use eris_cli.Docker.{ApiContainer, Container, DockerError, failure, failed}
use eris_cli.Configure.{
  blank_options, pull_options, configure_volumes_from_container, configure_service_container,
  service_options,
}
use eris_cli.Labels.{make_labels}
use eris_cli.Listing.{parse_containers}
use eris_cli.Perform.Action.{
  Env, Session, Result, ok, err, blocks, docker, container_exists, pull_refused,
}
use eris_cli.Perform.Calls.{create_container}
use eris_cli.Perform.Data.{docker_run_data}
use eris_cli.Perform.Rename.{docker_rename}
use eris_cli.Perform.Renamed.{CreatedAs, docker_rename-CreatedAs}
use eris_cli.Perform.Cleanup.{docker_run_data-forgets}
use eris_cli.Perform.Service.{docker_run_service}
use eris_cli.Perform.Started.{Launched, docker_run_service-Launched}
use eris_cli.Perform.Promises.{ForgetsRemoved}
use eris_cli.Tests.Daemon.{memory, Entry, find, dropped-find, drop_entry, if_found-done}

abbrev pub here : Env memory
here = record {
  pull_approve = true;
  on_circle = false;
  reply = [];
  working_dir = some (codes "/home");
  eris_root = codes "/root/.eris";
  container_root = codes "/home/eris/.eris";
  git_user = none;
  host_volume = λ v. v;
  container_volume = λ v. v;
  buffer = λ s. none;
  spare = false;
  attaches = λ name s. true;
}

abbrev pub ops : Operation
ops = record blank_operation {
  srv_container_name = codes "eris_service_ipfs_1";
  data_container_name = codes "eris_data_ipfs_1";
  container_type = codes "service";
  container_number = pos 1;
}

abbrev pub srv : Service
srv = record blank_service {
  name = codes "ipfs";
  image = codes "eris/ipfs";
  ports = codes "80:80" ∷ [];
}

abbrev none_yet : Session memory
none_yet = record { daemon = []; srv = srv; ops = ops }

abbrev started : Session memory
started = (docker_run_service memory here none_yet).1

docker_run_service-Launched_example :
    ((c : ApiContainer) × (parse_containers memory [] (codes "eris_service_ipfs_1") false ≡ some c)
      × (started ≡ none_yet))
    ⊎ ((parse_containers memory [] (codes "eris_service_ipfs_1") false ≡ none)
        × Launched memory here (codes "eris_service_ipfs_1") started.daemon)
unfolding eris_cli.Listing.Patterns.eris_reg_exp_any docker_run_service
    eris_cli.Perform.Calls.find_running parse_containers eris_cli.Perform.Action.get_srv
    eris_cli.Perform.Action.set_ops configure_service_container text_eq eris_cli.Strings.contains
    eris_cli.Perform.Calls.fix_volumes eris_cli.Dependency.fix_dirs
    eris_cli.Perform.Calls.find_existing create_container eris_cli.Perform.Calls.start_container
    eris_cli.Configure.numbered
docker_run_service-Launched_example =
    docker_run_service-Launched memory here none_yet started refl refl

memory-ForgetsRemoved : ForgetsRemoved memory
memory-ForgetsRemoved opts before h =
    let (c, found, same) =
      if_found-done opts.id before (drop_entry opts.id before) _
        (ap (λ a. (a, (memory.remove_container opts before).1)) h) in
    (failure (codes "no such container"), ap (find opts.id) same ∙ dropped-find opts.id before)

abbrev command : Session memory
command = record none_yet { ops = record ops { args = codes "ls" ∷ [] } }

docker_run_data-forgets_example :
    (e : DockerError) × (memory.inspect_container
        (codes "eris_exec_eris_data_ipfs_1")
        (docker_run_data memory here none command).1.daemon
      ≡ failed e)
unfolding docker_run_data eris_cli.Perform.Action.get_ops create_container
    eris_cli.Perform.Calls.with_removal eris_cli.Perform.Calls.start_container text_eq
    configure_volumes_from_container eris_cli.Perform.Calls.wait_container
    eris_cli.Perform.Calls.logs_container eris_cli.Perform.Action.gets
docker_run_data-forgets_example =
    docker_run_data-forgets memory here none command (docker_run_data memory here none command).1
      none memory-ForgetsRemoved refl refl

abbrev pub made : Container
made = record {
  id = codes "eris_exec_eris_data_ipfs_1";
  config = (configure_volumes_from_container here.container_root command.ops none).config;
  host_config = (configure_volumes_from_container here.container_root command.ops none).host_config;
}

ok_not_blocks : (u : Unit {0}) → ok u ≢ blocks
ok_not_blocks u h = absurd (cc h)

abbrev listed : ApiContainer
listed = record {
  id = codes "eris_service_ipfs_1";
  names = codes "/eris_service_ipfs_1" ∷ [];
  labels = [];
}

abbrev old : Container
old = record made { id = codes "eris_service_ipfs_1" }

abbrev entry : Entry
entry = record { name = codes "eris_service_ipfs_1"; running = true; container = old }

abbrev one_running : Session memory
one_running = record none_yet { daemon = entry ∷ [] }

docker_rename-CreatedAs_example :
    CreatedAs memory here old
      (codes "eris_service_files_1")
      (some (make_labels none (codes "files") ops))
unfolding text_eq eris_cli.Names.containers_name docker_rename eris_cli.Perform.Action.get_ops
    eris_cli.Perform.Action.gets eris_cli.Perform.Calls.find_running parse_containers
    eris_cli.Listing.Patterns.eris_reg_exp_any eris_cli.Listing.Patterns.name_pattern
    eris_cli.Perform.Action.ask eris_cli.Perform.Action.pure eris_cli.Perform.Action.call
    eris_cli.Strings.Decimal.itoa eris_cli.Perform.Action.set_ops
docker_rename-CreatedAs_example =
    docker_rename-CreatedAs memory here (codes "files") old (failure (codes "no such container"))
      one_running (docker_rename memory here (codes "files") one_running).1 refl refl refl
