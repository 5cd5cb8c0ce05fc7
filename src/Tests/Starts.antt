-- ===== src/Tests/Starts.antt =====
-- Groups of services started in a daemon in memory.
use eris_cli.Base.{◌≡◌, ◌↔◌, refl, none, List, [], ◌∷◌}
use eris_cli.Base.Int.{pos}
use eris_cli.Strings.{Text, codes}
use eris_cli.Definitions.{ServiceDefinition}
use eris_cli.Perform.Action.{no_working_dir}
use eris_cli.Command.{returns, start_error}
use eris_cli.Command.World.{World}
use eris_cli.Services.Operate.{start_group}
use eris_cli.Services.Started.{Starts, Turn, start_group_iff, start_group-Turn}
use eris_cli.Definitions.Do.{Do, now_do}
use eris_cli.Services.Operate.{start_service}
use eris_cli.Services.Composed.{ServiceStarts, start_service-ServiceStarts}
use eris_cli.Tests.Daemon.{memory, Entry}
use eris_cli.Tests.Containers.{here}
use eris_cli.Tests.World.{world, web, app_def, db_def}

abbrev pair : List ServiceDefinition
pair = db_def ∷ app_def ∷ []

abbrev both : List Entry
both = (start_group memory world pair []).1

start_group_iff_example :
    (start_group memory world pair [] ≡ (returns tt, both)) ↔ Starts memory world pair [] both
start_group_iff_example = start_group_iff memory world pair [] both

start_group-Turn_example : Turn memory world (db_def ∷ []) [] app_def [] both
unfolding start_group eris_cli.Command.perform eris_cli.Command.give
    eris_cli.Perform.Service.docker_run_service eris_cli.Perform.Calls.find_running
    eris_cli.Listing.parse_containers eris_cli.Perform.Action.get_srv
    eris_cli.Perform.Action.set_ops eris_cli.Configure.Service.configure_service_container
    eris_cli.Strings.text_eq eris_cli.Strings.contains eris_cli.Perform.Calls.fix_volumes
    eris_cli.Dependency.fix_dirs eris_cli.Perform.Calls.find_existing
    eris_cli.Perform.Calls.create_container eris_cli.Perform.Calls.start_container
    eris_cli.Configure.Service.numbered eris_cli.Listing.Patterns.eris_reg_exp_any
    eris_cli.Listing.Patterns.name_pattern
start_group-Turn_example =
    start_group-Turn memory world pair (db_def ∷ []) [] app_def [] both refl refl refl

-- A world without a working directory.
abbrev adrift : World memory
adrift = record world { env = record here { working_dir = none } }

abbrev one : List Entry
one = (start_group memory world (db_def ∷ []) []).1

abbrev asked : Do
asked = record now_do {
  operations = record now_do.operations { args = web ∷ []; container_number = pos 1 };
  env = codes "A=b" ∷ [];
}

start_service-ServiceStarts_example :
    ServiceStarts memory world asked [] (start_service memory world asked []).1
unfolding start_service eris_cli.Command.perform eris_cli.Command.give
    eris_cli.Perform.Service.docker_run_service eris_cli.Perform.Calls.find_running
    eris_cli.Listing.parse_containers eris_cli.Perform.Action.get_srv
    eris_cli.Perform.Action.set_ops eris_cli.Configure.Service.configure_service_container
    eris_cli.Strings.text_eq eris_cli.Strings.contains eris_cli.Perform.Calls.fix_volumes
    eris_cli.Dependency.fix_dirs eris_cli.Perform.Calls.find_existing
    eris_cli.Perform.Calls.create_container eris_cli.Perform.Calls.start_container
    eris_cli.Configure.Service.numbered eris_cli.Listing.Patterns.eris_reg_exp_any
    eris_cli.Listing.Patterns.name_pattern eris_cli.Command.load_fuelled
    eris_cli.Services.Group.build_services_group eris_cli.Loaders.Service.load_service_definition
    eris_cli.Loaders.Service.check_image eris_cli.Loaders.Connect.connect_to_a_service
    eris_cli.Dependency.parse_dependency eris_cli.Strings.split
    eris_cli.Merge.Struct.merge_operation eris_cli.Merge.merge eris_cli.Merge.operation_fields
    eris_cli.Listing.find_service_container eris_cli.Listing.find_numbered
    eris_cli.Names.service_containers_name eris_cli.Strings.Decimal.itoa
start_service-ServiceStarts_example =
    start_service-ServiceStarts memory world asked [] (start_service memory world asked []).1 refl
