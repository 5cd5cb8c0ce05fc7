-- ===== src/Chains/Definitions.antt =====
-- The commands of chains/manage.go that work on definition files: rename, import, export and the
-- removal of files; and what inspects a chain, prints its logs and makes a service of it.
use eris_cli.Base.{Bool, none, some, List, [], ◌∷◌, ◌++◌, if◌then◌else◌}
use eris_cli.Base.Int.{pos}
use eris_cli.Strings.{Text, codes, text_eq, split, contains}
use eris_cli.Definitions.{Operation, Chain}
use eris_cli.Definitions.Do.{Do, now_do}
use eris_cli.Docker.{DockerClient}
use eris_cli.Files.{base, get_file_by_name_and_type, is_known_chain}
use eris_cli.Loaders.Chain.{service_def_from_chain, eris_chain_start}
use eris_cli.Perform.Lifecycle.{docker_inspect, docker_logs}
use eris_cli.Perform.Rename.{docker_rename}
use eris_cli.Command.{
  returns, perform_error, same_name, unknown_chain, file_error, network_error, unknown_source,
  Command, give, fail, crash_command, load, query, ◌>>=◌, ◌>>◌, perform, perform_writing,
}
use eris_cli.Command.World.{World}
use eris_cli.Command.Machine.{
  Machine, Site, without_ext, with_toml, definition_file, renamed_file, reading, must, try_file,
  quietly, in_world,
}
use eris_cli.Data.{rename_data}
use eris_cli.Services.Definitions.{ensure_running, write_service_definition_file}
use eris_cli.Chains.Load.{is_chain_existing}
use eris_cli.Chains.Operate.{load_chain}
use eris_cli.Chains.Manage.{rm_chain_container}

module _ (D : DockerClient) (w : World D) where
  open w use {env}

  unfoldable pub inspect_chain : Do → Command D.State (Unit {0})
  inspect_chain asked = do
    found ← load (load_chain D w asked.name asked.operations.container_number)
    (existing, chain) ← query (λ s. is_chain_existing D s found)
    let inspect = perform D perform_error (docker_inspect D env) chain.service chain.operations
    if existing then inspect else give tt

  unfoldable pub logs_chain : Do → Bool → Text → Command D.State (Unit {0})
  logs_chain asked follow tail = do
    chain ← load (load_chain D w asked.name asked.operations.container_number)
    perform D perform_error (docker_logs D env follow tail) chain.service chain.operations

-- The chain under its new name, without what its definition takes from the default.
unfoldable pub renamed_chain : Text → Operation → Chain → Chain
renamed_chain new ops chain = record chain {
  name = new;
  service = record chain.service { name = []; image = [] };
  operations = ops;
}

module _ (D : DockerClient) (M : Machine D) where
  open M use {glob, join, chains_path, services_path}

  -- `WriteChainDefinitionFile`
  unfoldable pub write_chain_definition_file : Chain → Text → Command (Site D M) (Unit {0})
  unfolding definition_file
  write_chain_definition_file chain file =
      must file_error (M.write_chain (definition_file join chains_path chain.name file) chain)

  unfoldable pub chain_file : Text → M.Files → Text
  chain_file name f = get_file_by_name_and_type (glob f) (codes "chains") name

  unfoldable pub rename_chain_container : Do → Bool → Chain → Command (Site D M) Operation
  rename_chain_container asked transform_only chain =
      if transform_only
      then give chain.operations
      else in_world D M (λ w.
        perform_writing D perform_error (docker_rename D w.env asked.new_name) chain.service
          chain.operations)

  unfoldable pub rename_chain_data : Do → Bool → Operation → Command (Site D M) (Unit {0})
  rename_chain_data asked transform_only ops =
      if transform_only
      then give tt
      else in_world D M (λ w. rename_data D w (record asked {
        operations = record asked.operations { container_number = ops.container_number };
      }))

  unfoldable pub replace_chain_file :
      Do → Bool → Chain → Operation → Text → Command (Site D M) (Unit {0})
  unfolding write_chain_definition_file rename_chain_data renamed_file renamed_chain without_ext
  replace_chain_file asked transform_only chain ops old = do
    write_chain_definition_file (renamed_chain (without_ext asked.new_name) ops chain)
        (renamed_file join chains_path old asked.name asked.new_name)
    rename_chain_data asked transform_only ops
    try_file (M.remove old)

  unfoldable pub rename_chain_definition :
      Do → Bool → Chain → Operation → Command (Site D M) (Unit {0})
  unfolding replace_chain_file chain_file
  rename_chain_definition asked transform_only chain ops (s, f) =
      let old = chain_file asked.name f in
      if text_eq (base old) asked.new_name
      then (returns tt, (s, f))
      else replace_chain_file asked transform_only chain ops old (s, f)

  unfoldable pub rename_known_chain : Do → Command (Site D M) (Unit {0})
  unfolding rename_chain_container rename_chain_definition
  rename_known_chain asked = do
    let transform_only = text_eq (without_ext asked.new_name) asked.name
    chain ← in_world D M (λ w. load (load_chain D w asked.name (pos 1)))
    ops ← rename_chain_container asked transform_only chain
    rename_chain_definition asked transform_only chain ops

  unfoldable pub rename_chain : Do → Command (Site D M) (Unit {0})
  unfolding rename_known_chain
  rename_chain asked = if text_eq asked.name asked.new_name then fail same_name else (do
    known ← reading (λ f. is_known_chain (glob f) asked.name)
    if known then rename_known_chain asked else fail (unknown_chain asked.name))

  -- The parts of the path between colons; a second one is read only for IPFS.
  unfoldable pub import_from : Text → List Text → Command (Site D M) (Unit {0})
  import_from file [] = fail unknown_source
  import_from file (source ∷ rest) =
      let other = if contains source (codes "github") then give tt else fail unknown_source in
      if text_eq source (codes "ipfs")
      then elim rest [
        | [] ↦ crash_command
        | hash ∷ _ ↦ must network_error (M.get_from_ipfs hash file)
      ]
      else other

  unfoldable pub import_chain : Do → Command (Site D M) (Unit {0})
  unfolding with_toml import_from
  import_chain asked = import_from (with_toml (join chains_path asked.name)) (split asked.path b':')

  unfoldable pub export_chain : Do → Command (Site D M) (Unit {0})
  unfolding chain_file
  export_chain asked = do
    found ← in_world D M (λ w. load (load_chain D w asked.name asked.operations.container_number))
    (existing, _) ← in_world D M (λ w. query (λ s. is_chain_existing D s found))
    if existing
        then (do
          in_world D M (λ w. quietly (ensure_running D w (record now_do { name = codes "ipfs" })))
          file ← reading (chain_file asked.name)
          sent ← reading (M.send_to_ipfs file)
          elim sent [ none ↦ fail network_error | some hash ↦ give tt ])
        else fail (unknown_chain asked.name)

  unfoldable pub rm_chain : Do → Command (Site D M) (Unit {0})
  unfolding chain_file
  rm_chain asked = do
    in_world D M (λ w. rm_chain_container D w asked)
    old ← reading (chain_file asked.name)
    if asked.file then must file_error (M.remove old) else give tt

  -- The chain as a service, under the file of its id.
  unfoldable pub graduate_chain : Do → Command (Site D M) (Unit {0})
  unfolding write_service_definition_file
  graduate_chain asked = do
    chain ← in_world D M (λ w. load (load_chain D w asked.name (pos 1)))
    def ←
        in_world D M
          (λ w. load (λ s. service_def_from_chain D w.viper w.sources s chain eris_chain_start))
    elim def.service [
      | none ↦ crash_command
      | some srv ↦
          write_service_definition_file D M def srv
            (join services_path (chain.chain_id ++ codes ".toml"))
    ]
