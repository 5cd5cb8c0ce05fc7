-- ===== src/Contracts/Run.antt =====
-- The run of a package of contracts (contracts/operate.go) and the reading of the package
-- (loaders/contracts.go). The state is that of Contracts/Booting: the run and the machine.

pub mod CleansUp
pub mod Destroys
use eris_cli.Base.{
  Bool, not, ◌&&◌, ◌||◌, true, false, Option, none, some, List, [], ◌∷◌, ◌++◌, if◌then◌else◌,
}
use eris_cli.Strings.{Text, codes, text_eq}
use eris_cli.Definitions.{
  Operation, Service, ServiceDefinition, blank_service, blank_service_definition, blank_operation,
}
use eris_cli.Definitions.Do.{Do, now_do}
use eris_cli.Docker.{DockerClient}
use eris_cli.Files.{base}
use eris_cli.Names.{type_service, data_containers_name}
use eris_cli.Loaders.Finalize.{service_finalize_load}
use eris_cli.Perform.Service.{docker_exec_service}
use eris_cli.Perform.Lifecycle.{docker_remove}
use eris_cli.Command.{
  Reply, returns, fails, perform_error, file_error, improper_file, unknown_task, wrong_chain,
  Command, give, fail, crash_command, load, ◌>>=◌, ◌>>◌, perform, result_reply,
}
use eris_cli.Command.World.{World}
use eris_cli.Command.Machine.{Machine, Site, reading, try_file, quietly, in_world}
use eris_cli.Data.Transfer.{import_data, export_data, copy_each}
use eris_cli.Chains.Operate.{kill_chain}
use eris_cli.Contracts.{
  Package, AppType, default_contract_package, set_app_type, check_app_and_chain, app_command,
  link_app_to_chain, gulp_app,
}
use eris_cli.Contracts.Epm.{prepare_epm_action}
use eris_cli.Contracts.CleanUp.{app_location, clean_up, after_clean_up}
use eris_cli.Contracts.Booting.{
  Run, with_operations, update, using, asks, Place, boot_services_and_chain,
}

-- The name of the service that runs the task, and its settings but for links and environment.
unfoldable pub app_service : (Text → Text → Text) → Text → Run → Text → AppType → Service
app_service join root run cmd typ = record run.srv {
  name = run.app.name ++ (codes "_tmp_" ++ run.asked.name);
  image = typ.base_image;
  auto_data = true;
  entry_point = typ.entry_point;
  command = cmd;
  work_dir =
      if text_eq run.asked.path run.pwd
      then join root (join (codes "apps") run.app.name)
      else run.asked.path;
  user = codes "eris";
}

unfoldable pub linked_service : (Text → Text → Text) → Run → AppType → Service → Operation → Service
linked_service join run typ srv ops =
    let linked = link_app_to_chain run.chain_type run.app.chain_name ops.container_number srv in
    if text_eq typ.name (codes "epm") then prepare_epm_action join run.asked linked else linked

-- A task that is given changes the type of the app, also where it is refused then.
unfoldable pub override_type : Run → Run
override_type run =
    let known = text_eq run.asked.name (codes "test") || text_eq run.asked.name (codes "deploy") in
    if known && not (text_eq run.asked.task []) then record run { app_type = gulp_app } else run

module _ (D : DockerClient) (M : Machine D) where
  open M use {join, chains_path, data_path, files_in, working_dir}

  unfoldable pub define_service : Text → AppType → Command (Place D M) (Unit {0})
  unfolding app_service linked_service
  define_service cmd typ = do
    root ← using (λ run. reading (λ f. (M.world f).env.container_root))
    def ← using (λ run. in_world D M (λ w. load (λ s.
        service_finalize_load D s (record blank_service_definition {
          service = some (app_service join root run cmd typ);
          operations = run.asked.operations;
        }))))
    elim def.service [
      | none ↦ crash_command
      | some srv ↦
          let ops = record def.operations { follow = true } in
          update (λ run. record (with_operations ops run) {
            srv = linked_service join run typ srv ops;
            app_type = typ;
          })
    ]

  -- "make data container and import do.Path"; the error of the copy is dropped.
  unfoldable pub fill_data : Command (Place D M) (Unit {0})
  unfolding app_location
  fill_data = do
    root ← using (λ run. reading (λ f. (M.world f).env.container_root))
    using (λ run. try_file (M.copy run.asked.path (app_location D M run)))
    using (λ run. import_data D M 2 (record now_do {
      name = run.srv.name;
      operations = run.asked.operations;
      destination = if text_eq run.asked.path run.pwd then root else run.asked.path;
      source = join data_path run.srv.name;
    }))
    update (λ run.
        with_operations
          (record run.asked.operations {
            data_container_name =
                data_containers_name run.srv.name run.asked.operations.container_number;
          })
          run)

  unfoldable pub define_app_action_service : Command (Place D M) (Unit {0})
  unfolding define_service fill_data override_type
  define_app_action_service = do
    task ← asks (λ run. app_command run.app run.app_type run.asked.name run.asked.task)
    elim task [
      | none ↦ do update override_type; fail unknown_task
      | some (cmd, typ) ↦ do define_service cmd typ; fill_data
    ]

  -- What the execution writes into the service and the operation stays, also after an error.
  unfoldable pub perform_app_action_service : Command (Place D M) (Unit {0})
  perform_app_action_service (run, (s, f)) =
      let ops = record run.asked.operations { container_type = type_service } in
      let (r, t) =
        docker_exec_service D (M.world f).env (record { daemon = s; srv = run.srv; ops = ops }) in
      (
        result_reply perform_error r,
        (record (with_operations t.ops run) { srv = t.srv }, (t.daemon, f)),
      )

  -- A stage, and the rest of the run if it returns; if it fails, the clean up, whose error is dropped.
  unfoldable pub stage :
      Command (Place D M) (Unit {0})
      → Command (Place D M) (Unit {0})
      → Command (Place D M) (Unit {0})
  stage m rest p =
      let (r, q) = m p in
      elim r [
        | returns _ ↦ rest q
        | fails e ↦ (let (r2, q2) = clean_up D M q in after_clean_up D M (fails e) r2 q2)
        | other ↦ (other, q)
      ]

  -- "do.Path = pwd"
  abbrev pub set_path : Command (Place D M) (Unit {0})
  set_path = update (λ run. record run { asked = record run.asked { path = run.pwd } })

  unfoldable pub perform_stage : Command (Place D M) (Unit {0})
  perform_stage = stage perform_app_action_service (clean_up D M)

  unfoldable pub define_stage : Command (Place D M) (Unit {0})
  unfolding perform_stage
  define_stage = stage define_app_action_service perform_stage

  unfoldable pub path_stage : Command (Place D M) (Unit {0})
  unfolding define_stage
  path_stage = stage set_path define_stage

  -- The run from where the package is loaded; `id` is for the name of a throwaway chain.
  unfoldable pub run_loaded : Text → Command (Place D M) (Unit {0})
  unfolding path_stage
  run_loaded id = stage (boot_services_and_chain D M id) path_stage

  -- `package.json` as viper reads it: unreadable, not decoded, or a package.
  abbrev pub PackageFile : Type 0
  PackageFile = Option (Option Package)

  -- `LoadContractPackage`; `base pwd` names the default package.
  unfoldable pub load_contract_package :
      (Text → M.Files → PackageFile) → Text → Do → Text → Command (Site D M) (Package × AppType)
  load_contract_package read version asked pwd = do
    file ← reading (read asked.path)
    app ← elim file [
      | none ↦ give (default_contract_package (base pwd))
      | some none ↦ fail improper_file
      | some (some app) ↦ give app
    ]
    let typ = set_app_type version app asked.name asked.type_name
    if check_app_and_chain app typ asked.chain_name then give (app, typ) else fail wrong_chain

  unfoldable pub run_package :
      (Text → M.Files → PackageFile) → Text → Text → Do → Command (Site D M) (Unit {0})
  unfolding load_contract_package run_loaded
  run_package read version id asked = do
    here ← reading working_dir
    elim here [
      | none ↦ fail file_error
      | some pwd ↦ do
        (app, typ) ← load_contract_package read version asked pwd
        λ s.
            let (r, (_, t)) = run_loaded id (
              record {
                asked = asked;
                srv = blank_service;
                chain_name = [];
                chain_type = [];
                app = app;
                app_type = typ;
                pwd = pwd;
              },
              s,
            ) in
            (r, t)
    ]
