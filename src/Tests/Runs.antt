-- ===== src/Tests/Runs.antt =====
-- Definition files, data and packages on the machine in memory.
use eris_cli.Base.{
  Bool, ◌≡◌, refl, sym, ◌∙◌, ◌≢◌, ap, ◌⊎◌, false, true, false, List, [], ◌∷◌, ◌++◌, arith,
}
use eris_cli.Base.Int.{pos}
use eris_cli.Strings.{Text, codes, replace_first}
use eris_cli.Definitions.{ServiceDefinition, blank_service}
use eris_cli.Definitions.Do.{Do, now_do}
use eris_cli.Docker.{ApiContainer, Container, Answer, done, failed, failure}
use eris_cli.Perform.Action.{container_exists, docker}
use eris_cli.Perform.Promises.{ListsCreated}
use eris_cli.Command.{
  Reply, returns, fails, unending, perform_error, bad_option, unknown_task, file_error, Failure,
}
use eris_cli.Command.Machine.{Site, renamed_file}
use eris_cli.Chains.Definitions.{rm_chain}
use eris_cli.Chains.Setup.{prepare_setup, set_up, rm_named, setup_chain}
use eris_cli.Chains.Setup.Cleaned.{Cleaned, setup_chain-Cleaned}
use eris_cli.Chains.Setup.Conflicts.{setup_chain-conflicts}
use eris_cli.Contracts.{default_contract_package, epm_app}
use eris_cli.Contracts.Booting.{Run, build_each, boot_throw_away_chain}
use eris_cli.Contracts.Booting.Doubled.{BuiltAlone, count, weighted, build_each-doubled}
use eris_cli.Contracts.CleanUp.{destroy_chain}
use eris_cli.Contracts.Run.{run_loaded}
use eris_cli.Contracts.Run.CleansUp.{CleanedUp, run_loaded-CleanedUp}
use eris_cli.Contracts.Run.Destroys.{failed_boot-destroys}
use eris_cli.Data.Transfer.{import_data}
use eris_cli.Data.Transfer.Ends.{import_data-ends}
use eris_cli.Services.Definitions.{rename_service}
use eris_cli.Services.Definitions.Renamed.{Renamed, rename_service-Renamed}
use eris_cli.Services.Definitions.Kept.{Kept, rename_service-Kept}
use eris_cli.Services.Definitions.Misplaced.{renamed_file-misplaces}
use eris_cli.Listing.Listed.{Lists}
use eris_cli.Tests.Daemon.{memory, Entry, find, list_entries, listing_of}
use eris_cli.Tests.Containers.{made}
use eris_cli.Tests.World.{world, db, db_def}
use eris_cli.Tests.Site.{machine, join_path}

abbrev entry : Text → Entry
entry name = record { name = name; running = true; container = record made { id = name } }

abbrev state : List Entry
state = entry (codes "eris_service_db_1") ∷ entry (codes "eris_data_db_1") ∷ []

abbrev paths : List Text
paths = codes "service/db.toml" ∷ codes "services/db.toml" ∷ []

abbrev asked_rename : Do
asked_rename = record now_do {
  name = db;
  new_name = codes "store";
  operations = record now_do.operations { container_number = pos 1 };
}

abbrev renamed : Reply (Unit {0}) × Site memory machine
renamed = rename_service memory machine asked_rename (state, paths)

rename_service-Renamed_example :
    Renamed memory machine asked_rename state renamed.1.0 paths renamed.1.1
unfolding eris_cli.Strings.text_eq eris_cli.Command.Machine.without_ext replace_first
    eris_cli.Files.base eris_cli.Services.Definitions.old_file
    eris_cli.Files.get_file_by_name_and_type eris_cli.Files.config_files eris_cli.Strings.has_prefix
    eris_cli.Files.file_root eris_cli.Strings.split rename_service eris_cli.Command.Machine.reading
    eris_cli.Files.parse_known eris_cli.Files.is_listed eris_cli.Command.Machine.in_world
    eris_cli.Command.load eris_cli.Loaders.Service.load_service_definition
    eris_cli.Loaders.Service.check_image eris_cli.Command.perform_writing
    eris_cli.Perform.Rename.docker_rename eris_cli.Perform.Action.get_ops
    eris_cli.Perform.Action.gets eris_cli.Listing.find_service_container
    eris_cli.Listing.find_numbered eris_cli.Listing.Patterns.eris_reg_exp_links
    eris_cli.Listing.Patterns.eris_reg_exp eris_cli.Names.container_disassemble
    eris_cli.Strings.Decimal.atoi eris_cli.Strings.join eris_cli.Names.containers_name
    eris_cli.Perform.Calls.find_running eris_cli.Listing.parse_containers
    eris_cli.Listing.Patterns.eris_reg_exp_any eris_cli.Listing.Patterns.name_pattern
    eris_cli.Perform.Action.ask eris_cli.Perform.Action.pure eris_cli.Perform.Action.call
    eris_cli.Perform.Action.set_ops eris_cli.Command.give eris_cli.Command.Machine.must
    eris_cli.Data.rename_data eris_cli.Command.query eris_cli.Listing.is_data_container
    eris_cli.Strings.Decimal.itoa eris_cli.Command.perform eris_cli.Merge.Struct.merge_operation
    eris_cli.Merge.merge eris_cli.Merge.operation_fields eris_cli.Labels.load_data_definition
    eris_cli.Names.data_containers_name eris_cli.Command.Machine.try_file
rename_service-Renamed_example =
    rename_service-Renamed memory machine asked_rename state renamed.1.0 paths renamed.1.1 refl refl
      refl

abbrev refused : Reply (Unit {0}) × Site memory machine
refused = rename_service memory machine asked_rename ([], paths)

abbrev no_container : Failure
no_container = perform_error (docker (failure (codes "no such container")))

rename_service-Kept_example : Kept memory machine asked_rename paths refused.1.1
unfolding rename_service eris_cli.Strings.text_eq eris_cli.Command.Machine.reading
    eris_cli.Files.parse_known eris_cli.Files.is_listed eris_cli.Files.config_files
    eris_cli.Strings.has_prefix eris_cli.Files.file_root eris_cli.Strings.split
    eris_cli.Command.Machine.in_world eris_cli.Command.load
    eris_cli.Loaders.Service.load_service_definition eris_cli.Loaders.Service.check_image
    replace_first eris_cli.Command.perform_writing eris_cli.Perform.Rename.docker_rename
    eris_cli.Perform.Action.get_ops eris_cli.Perform.Action.gets eris_cli.Perform.Action.raise
rename_service-Kept_example =
    rename_service-Kept memory machine asked_rename no_container [] refused.1.0 paths refused.1.1
      refl

renamed_file-misplaces_example :
    renamed_file join_path
      (codes "services")
      (codes "/home/ipfs/.eris/services/" ++ codes "ipfs.toml")
      (codes "ipfs")
      (codes "files")
    ≡ replace_first (codes "/home/ipfs/.eris/services/") (codes "ipfs") (codes "files")
      ++ codes "ipfs.toml"
unfolding eris_cli.Strings.text_eq eris_cli.Command.Machine.ext eris_cli.Strings.contains
renamed_file-misplaces_example =
    renamed_file-misplaces join_path (codes "services") (codes "/home/ipfs/.eris/services/")
      (codes "ipfs.toml") (codes "ipfs") (codes "files") refl refl

abbrev asked_new : Do
asked_new = record now_do {
  name = codes "main";
  config_opts = codes "novalue" ∷ [];
  operations = record now_do.operations { container_number = pos 1 };
}

abbrev data_main : ApiContainer
data_main = record {
  id = codes "eris_data_main_1";
  names = codes "/eris_data_main_1" ∷ [];
  labels = [];
}

setup_chain-conflicts_example :
    setup_chain memory machine asked_new
      (codes "new")
      (entry (codes "eris_data_main_1") ∷ [], paths)
    ≡ (fails (perform_error container_exists), (entry (codes "eris_data_main_1") ∷ [], paths))
unfolding eris_cli.Strings.text_eq eris_cli.Chains.Setup.setup_path
    eris_cli.Listing.parse_containers eris_cli.Listing.Patterns.eris_reg_exp_any
    eris_cli.Listing.Patterns.name_pattern eris_cli.Labels.load_data_definition
    eris_cli.Names.data_containers_name eris_cli.Strings.Decimal.itoa
setup_chain-conflicts_example =
    setup_chain-conflicts memory machine asked_new (codes "new") []
      (entry (codes "eris_data_main_1") ∷ []) paths data_main refl refl refl

abbrev set_up_at : Reply (Unit {0}) × Site memory machine
set_up_at = setup_chain memory machine asked_new (codes "new") (state, paths)

setup_chain-Cleaned_example :
    (prepare_setup memory machine asked_new (state, paths)
      ≡ (fails (bad_option (codes "novalue")), set_up_at.1))
    ⊎ ((ready : Do) × (u : Site memory machine) × (name : Text) × (prepare_setup memory machine
            asked_new
            (state, paths)
          ≡ (returns ready, u))
        × Cleaned
            (rm_named memory machine ready)
            (set_up memory machine ready (codes "new"))
            (bad_option (codes "novalue"))
            (ready.name, u)
            (name, set_up_at.1))
unfolding setup_chain eris_cli.Strings.text_eq eris_cli.Command.Machine.reading
    eris_cli.Command.Machine.in_world eris_cli.Chains.Register.ensure_data
    eris_cli.Chains.Register.is_known eris_cli.Command.perform
    eris_cli.Perform.Data.docker_create_data eris_cli.Perform.Calls.find_existing
    eris_cli.Listing.parse_containers eris_cli.Listing.Patterns.eris_reg_exp_any
    eris_cli.Listing.Patterns.name_pattern eris_cli.Labels.load_data_definition
    eris_cli.Names.data_containers_name eris_cli.Perform.Calls.create_container
    eris_cli.Configure.Data.configure_data_container eris_cli.Command.give
    eris_cli.Command.Machine.must import_data eris_cli.Command.Machine.on_daemon
    eris_cli.Command.query eris_cli.Listing.is_data_container eris_cli.Listing.find_numbered
    eris_cli.Listing.Patterns.eris_reg_exp_links eris_cli.Names.container_disassemble
    eris_cli.Strings.split replace_first eris_cli.Strings.Decimal.atoi eris_cli.Strings.join
    eris_cli.Strings.Decimal.itoa eris_cli.Data.pretend_to_be_a_service
    eris_cli.Perform.Data.docker_run_data_only eris_cli.Perform.Data.docker_run_data
    eris_cli.Configure.Data.configure_volumes_from_container eris_cli.Perform.Calls.with_removal
    eris_cli.Perform.Calls.start_container eris_cli.Perform.Calls.wait_container
    eris_cli.Perform.Calls.logs_container eris_cli.Command.load
    eris_cli.Loaders.Chain.mock_chain_definition eris_cli.Chains.Operate.load_chain
    eris_cli.Loaders.Chain.load_chain_definition eris_cli.Command.fail rm_chain
    eris_cli.Chains.Manage.rm_chain_container eris_cli.Chains.Load.is_chain_existing
    eris_cli.Listing.find_chain_container eris_cli.Command.Named.forgetting
    eris_cli.Command.Named.on_named eris_cli.Command.Named.in_named_world
setup_chain-Cleaned_example =
    setup_chain-Cleaned memory machine asked_new (codes "new") (bad_option (codes "novalue"))
      (state, paths) set_up_at.1 refl

build_each-doubled_example :
    (groups : List (List ServiceDefinition)) × BuiltAlone memory machine world
      (pos 1)
      []
      (db ∷ db ∷ [])
      groups
    × (◌≡◌ {A = List Entry} [] [])
    × ((p : ServiceDefinition → Bool) → count p (db_def ∷ db_def ∷ db_def ∷ []) ≡ weighted p groups)
unfolding build_each eris_cli.Command.load_fuelled eris_cli.Services.Group.build_services_group
    eris_cli.Loaders.Service.load_service_definition eris_cli.Strings.text_eq
    eris_cli.Loaders.Service.check_image eris_cli.Command.give
    eris_cli.Listing.find_service_container eris_cli.Listing.find_numbered
    eris_cli.Names.service_containers_name eris_cli.Names.service_to_data_container
    eris_cli.Labels.make_labels eris_cli.Strings.Decimal.itoa eris_cli.Dict.insert
build_each-doubled_example =
    build_each-doubled memory machine world (pos 1) (db ∷ db ∷ []) (db_def ∷ db_def ∷ db_def ∷ [])
      [] [] refl

abbrev run : Run
run = record {
  asked = record now_do {
    name = codes "dance";
    chain_name = codes "ghost";
    path = codes "home";
    rm = true;
    operations = record now_do.operations { container_number = pos 1 };
  };
  srv = blank_service;
  chain_name = [];
  chain_type = [];
  app = default_contract_package (codes "home");
  app_type = epm_app (codes "0.11");
  pwd = codes "home";
}

abbrev run_at : Reply (Unit {0}) × (Run × Site memory machine)
run_at = run_loaded memory machine (codes "1f") (run, (state, paths))

run_loaded-CleanedUp_example : CleanedUp memory machine run_at.1
unfolding run_loaded eris_cli.Contracts.Run.stage eris_cli.Contracts.Booting.boot_services_and_chain
    eris_cli.Contracts.Booting.using eris_cli.Command.Machine.in_world eris_cli.Command.give
    eris_cli.Strings.text_eq eris_cli.Contracts.Boot.boot_chain eris_cli.Chains.Operate.start_chain
    eris_cli.Command.query eris_cli.Loaders.Chain.load_chain_definition
    eris_cli.Contracts.Run.define_app_action_service eris_cli.Contracts.app_command
    eris_cli.Command.fail eris_cli.Contracts.CleanUp.clean_up eris_cli.Command.Machine.reading
    eris_cli.Command.Machine.quietly eris_cli.Data.Transfer.export_data
    eris_cli.Command.Machine.on_daemon eris_cli.Listing.is_data_container
    eris_cli.Listing.find_numbered eris_cli.Listing.Patterns.eris_reg_exp_links
    eris_cli.Listing.Patterns.eris_reg_exp eris_cli.Names.container_disassemble
    eris_cli.Strings.split replace_first eris_cli.Strings.Decimal.atoi eris_cli.Strings.join epm_app
    eris_cli.Strings.has_prefix default_contract_package eris_cli.Command.Machine.try_file
    eris_cli.Command.Named.forgetting
run_loaded-CleanedUp_example =
    run_loaded-CleanedUp memory machine (codes "1f") (run, (state, paths)) run_at.1
      (fails unknown_task) tt refl

abbrev thrown_at : Reply (Unit {0}) × (Run × Site memory machine)
thrown_at = boot_throw_away_chain memory machine (codes "1f") (codes "home") (run, (state, paths))

abbrev destroyed_at : Reply (Unit {0}) × Site memory machine
destroyed_at = destroy_chain memory machine thrown_at.1.0 (state, paths)

failed_boot-destroys_example :
    (thrown_at.1.0.chain_type ≡ codes "throwaway")
    × (destroyed_at.1.1
        ≡ (machine.remove (codes "chains/.toml") (machine.remove_all (codes "data") paths).1).1)
unfolding boot_throw_away_chain eris_cli.Contracts.Booting.using
    eris_cli.Chains.Setup.clear_old_data eris_cli.Command.Machine.reading eris_cli.Files.is_listed
    eris_cli.Strings.text_eq eris_cli.Command.give setup_chain eris_cli.Command.fail destroy_chain
    eris_cli.Command.Machine.in_world eris_cli.Command.Machine.quietly
    eris_cli.Chains.Operate.kill_chain eris_cli.Command.load
    eris_cli.Loaders.Chain.load_chain_definition eris_cli.Command.Machine.try_file
failed_boot-destroys_example =
    failed_boot-destroys memory machine (codes "1f") (codes "home") run thrown_at.1.0 (state, paths)
      thrown_at.1.1 file_error state destroyed_at.1.0 paths destroyed_at.1.1 refl refl refl refl

list_entries-last :
    (e : Entry) (es : List Entry)
    → list_entries true (es ++ e ∷ []) ≡ list_entries true es ++ listing_of e ∷ []
list_entries-last e [] = refl
list_entries-last e (x ∷ es) = ap (λ cs. listing_of x ∷ cs) (list_entries-last e es)

memory-ListsCreated : ListsCreated memory
memory-ListsCreated opts c before after h = from (find opts.name before) h
  where
    made_entry : Entry
    made_entry = record {
      name = opts.name;
      running = false;
      container = record { id = opts.name; config = opts.config; host_config = opts.host_config };
    }

    from :
        (a : Answer Container)
        → (elim a as (λ _. Answer Container × List Entry) [
          | done c ↦ (failed (failure (codes "conflict")), before)
          | failed e ↦ (done made_entry.container, before ++ made_entry ∷ [])
        ])
          ≡ (done c, after)
        → (contns : List ApiContainer) × (memory.list_containers true after ≡ done contns)
          × Lists contns opts.name
    from (done x) k = absurd (cc k)
    from (failed e) k = (
      list_entries true before ++ listing_of made_entry ∷ [],
      ap (λ p. done (list_entries true p.1)) (sym k)
          ∙ ap done (list_entries-last made_entry before),
      record {
        before = list_entries true before;
        container = listing_of made_entry;
        after = [];
        splits = refl;
        names_before = [];
        names_after = [];
        named = refl;
      },
    )

import_data-ends_example : (import_data memory machine 2 asked_new (state, paths)).0 ≢ unending
unfolding eris_cli.Labels.load_data_definition eris_cli.Names.data_containers_name
    eris_cli.Strings.Decimal.itoa eris_cli.Listing.Patterns.eris_reg_exp_any
import_data-ends_example =
    import_data-ends memory machine asked_new state paths memory-ListsCreated (omega arith) refl
