-- ===== src/Chains/Manage.antt =====
-- `PlopChain`, `UpdateChain` and the container's part of `RmChain` (chains/manage.go). The removal of
-- the definition file is in Chains/Definitions.
use eris_cli.Base.{true, List, [], ◌∷◌, ◌++◌, Option, none, some, if◌then◌else◌}
use eris_cli.Strings.{Text, codes, text_eq}
use eris_cli.Definitions.{Service}
use eris_cli.Definitions.Do.{Do}
use eris_cli.Docker.{DockerClient}
use eris_cli.Loaders.Chain.{eris_chain_start}
use eris_cli.Perform.Lifecycle.{docker_remove, docker_rebuild}
use eris_cli.Command.{perform_error, unknown_plop, Command, give, fail, load, query, ◌>>=◌, perform}
use eris_cli.Command.World.{World}
use eris_cli.Chains.Load.{is_chain_existing, is_chain_running}
use eris_cli.Chains.Operate.{load_chain, exec_chain}

-- The command of a plop, or `none` for an unknown type. `join` stands for Go's `path.Join`.
unfoldable pub plop_args : (Text → Text → Text) → Text → Text → Option (List Text)
plop_args join chain_id type_name =
    let root = join (codes "/home/eris/.eris/chains") chain_id in
    let info = λ (what : Text).
      codes "mintinfo" ∷ codes "--node-addr" ∷ codes "http://0.0.0.0:46657" ∷ what ∷ [] in
    if text_eq type_name (codes "genesis")
    then some (codes "cat" ∷ join root (codes "genesis.json") ∷ [])
    else if text_eq type_name (codes "config")
    then some (codes "cat" ∷ join root (codes "config.toml") ∷ [])
    else if text_eq type_name (codes "status")
    then some (info (codes "status"))
    else if text_eq type_name (codes "validators")
    then some (info (codes "validators"))
    else none

module _ (D : DockerClient) (w : World D) where
  open w use {env}

  unfoldable pub plop_chain : (Text → Text → Text) → Do → Command D.State Text
  unfolding plop_args
  plop_chain join asked = elim (plop_args join asked.chain_id asked.type_name) [
    | none ↦ fail (unknown_plop asked.type_name)
    | some args ↦ exec_chain D w (record asked {
      name = asked.chain_id;
      operations = record asked.operations { args = args; publish_all_ports = true };
    })
  ]

  -- The service of a chain that runs is set up again.
  unfoldable pub updated_service : Do → Service → Service
  updated_service asked srv = record srv {
    environment = (codes "CHAIN_ID=" ++ asked.name) ∷ asked.env;
    links = srv.links ++ asked.links;
    command = eris_chain_start;
  }

  unfoldable pub update_chain : Do → Command D.State (Unit {0})
  unfolding updated_service
  update_chain asked = do
    found ← load (load_chain D w asked.name asked.operations.container_number)
    (running, chain) ← query (λ s. is_chain_running D s found)
    let srv = if running then updated_service asked chain.service else chain.service
    perform D perform_error (docker_rebuild D env asked.pull asked.timeout) srv chain.operations

  unfoldable pub rm_chain_container : Do → Command D.State (Unit {0})
  rm_chain_container asked = do
    found ← load (load_chain D w asked.name asked.operations.container_number)
    (existing, chain) ← query (λ s. is_chain_existing D s found)
    let remove = docker_remove D env asked.rm_d asked.volumes
    let removed = perform D perform_error remove chain.service chain.operations
    if existing then removed else give tt
