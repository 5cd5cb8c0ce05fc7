-- ===== src/Chains/Operate.antt =====
-- The operations on chains (chains/operate.go).
use eris_cli.Base.{Bool, true, false, Option, none, some, List, [], ◌∷◌, ◌++◌, if◌then◌else◌}
use eris_cli.Base.Int.{ℤ, pos}
use eris_cli.Strings.{Text, codes, text_eq}
use eris_cli.Definitions.{Operation, Service, Dependencies, Chain}
use eris_cli.Definitions.Do.{Do}
use eris_cli.Docker.{DockerClient}
use eris_cli.Names.{containers_name}
use eris_cli.Merge.Struct.{merge_operation}
use eris_cli.Loaders.Outcome.{Outcome, loaded, refused, panicked}
use eris_cli.Loaders.Service.{load_service_definition}
use eris_cli.Loaders.Chain.{load_chain_definition, eris_chain_start}
use eris_cli.Perform.Service.{docker_run_service, docker_exec_service}
use eris_cli.Perform.Lifecycle.{docker_stop, docker_remove}
use eris_cli.Command.{
  perform_error, chain_not_running, Command, give, fail, crash_command, load, query, ◌>>=◌, ◌>>◌,
  perform,
}
use eris_cli.Command.World.{World}
use eris_cli.Command.Named.{on_named, set_name, forgetting}
use eris_cli.Services.{is_service_running}
use eris_cli.Chains.Load.{is_chain_running}

abbrev pub api_env : Bool → List Text
api_env true = codes "ERISDB_API=true" ∷ []
api_env false = []

module _ (D : DockerClient) (w : World D) where
  open w use {viper, sources, env}

  unfoldable pub load_chain : Text → ℤ → D.State → Outcome Chain
  load_chain name number s = load_chain_definition D viper sources s name false number

  unfoldable pub kill_chain : Do → Command D.State (Unit {0})
  unfolding load_chain is_chain_running
  kill_chain asked = do
    loaded_chain ← load (load_chain asked.name asked.operations.container_number)
    let timeout = if asked.force then 0 else asked.timeout
    (running, chain) ← query (λ s. is_chain_running D s loaded_chain)
    let stop = perform D perform_error (docker_stop D env timeout) chain.service chain.operations
    if running then stop else give tt
    let remove = docker_remove D env asked.rm_d asked.volumes
    let removed = perform D perform_error remove chain.service chain.operations
    if asked.rm then removed else give tt

  -- Starts a service unless it runs. The test writes its container into the operation.
  unfoldable pub boot_service : ℤ → Text → Command D.State (Unit {0})
  boot_service number name = do
    def ← load (λ s. load_service_definition D viper sources s name false number)
    elim def.service [
      | none ↦ crash_command
      | some srv ↦ do
        (running, ops) ← query (λ s. is_service_running D s srv def.operations)
        let run = perform D perform_error (docker_run_service D env) srv ops
        if running then give tt else run
    ]

  -- The loop of `bootDependencies` over the services. The name of each is written into the request, and
  -- stays there where its service does not load or start.
  unfoldable pub boot_services : ℤ → List Text → Command (Text × D.State) (Unit {0})
  unfolding boot_service
  boot_services number [] = give tt
  boot_services number (name ∷ names) = do
    set_name name
    on_named (boot_service number name)
    boot_services number names

  unfoldable pub check_chains : ℤ → Text → List Text → Command D.State (Unit {0})
  unfolding load_chain is_chain_running
  check_chains number chain [] = give tt
  check_chains number chain (name ∷ names) = do
    found ← load (load_chain name number)
    (running, _) ← query (λ s. is_chain_running D s found)
    if running then give tt else fail (chain_not_running chain name)
    check_chains number chain names

  -- "undo side effects" comes after the loop over the services only.
  unfoldable pub boot_dependencies :
      ℤ → Text → Option Dependencies → Command (Text × D.State) (Unit {0})
  unfolding boot_services check_chains
  boot_dependencies number chain none = give tt
  boot_dependencies number chain (some deps) = do
    name ← query (λ p. p.0)
    boot_services number deps.services
    set_name name
    on_named (check_chains number chain deps.chains)

  -- The service of the chain, for a start.
  unfoldable pub started_service : Do → Chain → Service
  started_service asked chain = record chain.service {
    command = eris_chain_start;
    environment =
        chain.service.environment
        ++ ((codes "CHAIN_ID=" ++ chain.chain_id) ∷ asked.env ++ api_env asked.run);
    links = chain.service.links ++ asked.links;
  }

  -- The further settings of an exec.
  unfoldable pub execed_service : Do → Text → Service → Service
  execed_service asked name srv = record srv {
    image = if text_eq asked.image [] then srv.image else asked.image;
    entry_point = [];
    command = [];
    links = srv.links ++ (containers_name (codes "chain") name (pos 1) ++ codes ":chain") ∷ [];
  }

  unfoldable pub execed_operation : Do → Operation → Operation
  execed_operation asked ops = record ops { args = asked.operations.args; publish_all_ports = true }

  unfoldable pub run_chain : Do → Bool → Chain → Command D.State (Unit {0})
  unfolding started_service execed_service execed_operation
  run_chain asked exec chain =
      let srv = started_service asked chain in
      let ops = merge_operation chain.operations asked.operations in
      if exec
      then perform D perform_error (docker_exec_service D env) (execed_service asked chain.name srv)
          (execed_operation asked ops)
      else perform D perform_error (docker_run_service D env) srv ops

  -- The result is `do.Result` where there is no error. A chain that does not load is no error.
  unfoldable pub start_or_exec_named : Do → Bool → Command (Text × D.State) Text
  unfolding load_chain boot_dependencies run_chain
  start_or_exec_named asked exec = do
    outcome ← query (λ p. load_chain p.0 asked.operations.container_number p.1)
    elim outcome [
      | refused _ ↦ give (codes "no file")
      | panicked ↦ crash_command
      | loaded chain ↦ if text_eq chain.name [] then give (codes "no name") else (do
        boot_dependencies asked.operations.container_number chain.name chain.dependencies
        on_named (run_chain asked exec chain)
        give [])
    ]

  -- The same for the callers that do not read the name that is left.
  unfoldable pub start_or_exec : Do → Bool → Command D.State Text
  unfolding start_or_exec_named
  start_or_exec asked exec = forgetting asked.name (start_or_exec_named asked exec)

  unfoldable pub start_chain : Do → Command D.State Text
  unfolding start_or_exec
  start_chain asked = start_or_exec asked false

  unfoldable pub exec_chain : Do → Command D.State Text
  unfolding start_or_exec
  exec_chain asked = start_or_exec asked true
