-- ===== src/Contracts/Booting.antt =====
-- How the run of a package boots its services and its chain (contracts/operate.go), and
-- `ThrowAwayChain` of chains/operate.go.
-- The Go functions share the request and the package by their pointers and read what was written also
-- after an error, so what they write is part of the state here.

pub mod Doubled
use eris_cli.Base.{
  Bool, true, false, not, Option, none, some, List, [], ◌∷◌, ◌++◌, length, ltb, if◌then◌else◌,
}
use eris_cli.Base.Int.{ℤ}
use eris_cli.Strings.{Text, codes, text_eq, any_text}
use eris_cli.Definitions.{
  Operation, Service, ServiceDefinition, blank_service, blank_service_definition, blank_operation,
}
use eris_cli.Definitions.Do.{Do, now_do}
use eris_cli.Docker.{DockerClient}
use eris_cli.Files.{base}
use eris_cli.Names.{type_service, data_containers_name}
use eris_cli.Loaders.Finalize.{service_finalize_load}
use eris_cli.Perform.Service.{docker_exec_service}
use eris_cli.Perform.Lifecycle.{docker_remove}
use eris_cli.Command.{
  Reply, returns, fails, perform_error, file_error, improper_file, unknown_task, Command, give,
  fail, crash_command, load, load_fuelled, ◌>>=◌, ◌>>◌, perform, result_reply,
}
use eris_cli.Command.World.{World}
use eris_cli.Command.Machine.{Machine, Site, reading, try_file, quietly, in_world}
use eris_cli.Command.Named.{leaving_name}
use eris_cli.Data.Transfer.{import_data, export_data, copy_each}
use eris_cli.Services.Group.{build_services_group}
use eris_cli.Services.Operate.{start_group}
use eris_cli.Chains.Operate.{start_or_exec_named}
use eris_cli.Chains.Setup.{setup_path, chain_id_of, clear_old_data, setup_chain, eris_chain_new}
use eris_cli.Contracts.{
  Package, AppType, default_contract_package, set_app_type, check_app_and_chain, app_command,
  link_app_to_chain,
}
use eris_cli.Contracts.Boot.{boot_chain}
use eris_cli.Contracts.Epm.{prepare_epm_action}

-- The request, its service and chain, and the package with its type. `pwd` is the global variable.
pub record Run : Type 0 where
  pub asked : Do
  pub srv : Service
  pub chain_name : Text
  pub chain_type : Text
  pub app : Package
  pub app_type : AppType
  pub pwd : Text

abbrev pub with_operations : Operation → Run → Run
with_operations ops run = record run { asked = record run.asked { operations = ops } }

module _ {S : Type 0} where
  abbrev pub update : (Run → Run) → Command (Run × S) (Unit {0})
  update g (run, s) = (returns tt, (g run, s))

  -- A command on the machine that reads the run.
  unfoldable pub using : {A : Type 0} → (Run → Command S A) → Command (Run × S) A
  using m (run, s) = let (r, t) = m run s in (r, (run, t))

  -- The same where only the run's result is kept.
  abbrev pub asks : {A : Type 0} → (Run → A) → Command (Run × S) A
  asks g (run, s) = (returns (g run), (run, s))

abbrev path_or_none : Option Text → Text
path_or_none none = []
path_or_none (some p) = p

module _ {S : Type 0} where
  -- What `setupChain` writes into the request, and "do.Run = true".
  abbrev pub set_thrown_path : Do → Option Text → Command (Run × S) (Unit {0})
  set_thrown_path thrown path = update (λ run. record run {
    asked = record run.asked { path = path_or_none path; chain_id = chain_id_of thrown };
  })

  abbrev pub name_chain : Text → Command (Run × S) (Unit {0})
  name_chain name = update (λ run. record run { chain_name = name })

  abbrev pub mark_run : Command (Run × S) (Unit {0})
  mark_run = update (λ run. record run { asked = record run.asked { run = true } })

module _ (D : DockerClient) (M : Machine D) where
  open M use {join, chains_path, data_path, files_in}

  abbrev pub Place : Type 0
  Place = Run × Site D M

  -- The loop over the services. Each group is built behind the services so far, and the whole is appended
  -- to them again.
  unfoldable pub build_each :
      (World D) → ℤ → List Text → List ServiceDefinition → Command D.State (List ServiceDefinition)
  build_each w number [] srvs = give srvs
  build_each w number (name ∷ names) srvs = do
    t ← load_fuelled (λ s. build_services_group D w.viper w.sources s number w.fuel name srvs)
    build_each w number names (srvs ++ t)

  -- A definition that is in the list twice is one struct in Go; here its second start is from what was
  -- loaded, which is the same where the first has left the container running.
  unfoldable pub boot_services : World D → Do → Command D.State (Unit {0})
  unfolding build_each
  boot_services w asked = do
    srvs ← build_each w asked.operations.container_number asked.services_slice []
    if ltb 0 (length srvs) then start_group D w srvs else give tt

  -- `bootChain`, with what it writes for the tear down. Where the service does not start, the arguments
  -- that were written for it are not kept: nothing reads them then.
  unfoldable pub boot_named : Text → Command Place (Unit {0})
  boot_named name = do
    update (λ run. record run { chain_type = codes "service" })
    (typ, ops) ← using (λ run. in_world D M (λ w. boot_chain D w name run.asked.operations))
    update (λ run. record (with_operations ops run) { chain_type = typ; chain_name = name })

  -- The request of `ThrowAwayChain`; `id` is the first part of a new UUID.
  unfoldable pub throwaway_request : Text → Text → Do → Do
  throwaway_request id name asked = record asked {
    name = name ++ (codes "_" ++ id);
    path = join chains_path (codes "default");
  }

  -- `StartChain(do)` with its error dropped, and the name that it leaves in the request.
  unfoldable pub start_thrown : Do → Command (Site D M) Text
  start_thrown thrown =
      in_world D M (λ w.
        leaving_name thrown.name (start_or_exec_named D w (record thrown { run = true }) false))

  -- The name of the request is set for the time of the call; its other fields stay as they were written.
  -- The chain to tear down is named as the start has left the name.
  unfoldable pub boot_throw_away_chain : Text → Text → Command Place (Unit {0})
  unfolding throwaway_request start_thrown
  boot_throw_away_chain id name = do
    update (λ run. record run { chain_type = codes "throwaway" })
    thrown ← asks (λ run. throwaway_request id name run.asked)
    using (λ run. clear_old_data D M thrown)
    path ← using (λ run. reading (setup_path D M thrown))
    set_thrown_path thrown path
    using (λ run. setup_chain D M thrown eris_chain_new)
    mark_run
    left ← using (λ run. start_thrown thrown)
    name_chain left

  abbrev is_temporary : Text → Bool
  is_temporary name = any_text name (codes "t" ∷ codes "tmp" ∷ codes "temp" ∷ [])

  unfoldable pub boot_the_chain : Text → Command Place (Unit {0})
  unfolding boot_named boot_throw_away_chain
  boot_the_chain id = do
    (asked_chain, app) ← asks (λ run. (run.asked.chain_name, run.app))
    let throw_away = boot_throw_away_chain id app.name
    let from_package = if text_eq app.chain_name [] then throw_away else boot_named app.chain_name
    let from_flag = if is_temporary asked_chain then throw_away else boot_named asked_chain
    if text_eq asked_chain [] then from_package else from_flag

  -- `app.ChainName` is written before the error of the boot is returned.
  unfoldable pub name_the_chain : Command Place (Unit {0}) → Command Place (Unit {0})
  name_the_chain boot p =
      let (r, (run, s)) = boot p in
      (r, (record run { app = record run.app { chain_name = run.chain_name } }, s))

  unfoldable pub boot_services_and_chain : Text → Command Place (Unit {0})
  unfolding boot_services boot_the_chain name_the_chain
  boot_services_and_chain id = do
    using (λ run. in_world D M (λ w. boot_services w run.asked))
    name_the_chain (boot_the_chain id)
