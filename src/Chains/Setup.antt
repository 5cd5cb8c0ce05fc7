-- ===== src/Chains/Setup.antt =====
-- `setupChain`, `NewChain` and `InstallChain` of chains/operate.go. The recursion of `ImportData` has the
-- fuel that Data/Transfer/Ends shows to be enough.

pub mod Cleaned
pub mod Conflicts
use eris_cli.Base.{Bool, true, false, Option, none, some, List, [], ◌∷◌, ◌++◌, ◌&&◌, if◌then◌else◌}
use eris_cli.Strings.{Text, codes, text_eq, split}
use eris_cli.Definitions.{Operation, Service, Chain}
use eris_cli.Definitions.Do.{Do, now_do}
use eris_cli.Docker.{DockerClient}
use eris_cli.Names.{chain_containers_name, data_containers_name}
use eris_cli.Perform.Action.{Env}
use eris_cli.Perform.Service.{docker_run_service}
use eris_cli.Command.{
  Reply, returns, fails, Failure, perform_error, bad_option, tragic, no_name, file_error, Command,
  give, query, fail, load, ◌>>=◌, ◌>>◌, perform,
}
use eris_cli.Command.World.{World}
use eris_cli.Chains.Operate.{load_chain, boot_dependencies, api_env}
use eris_cli.Command.Named.{on_named, forgetting, in_named_world}
use eris_cli.Command.Machine.{Machine, Site, reading, must, try_file, in_world}
use eris_cli.Data.Transfer.{import_data}
use eris_cli.Loaders.Chain.{mock_chain_definition}
use eris_cli.Chains.Definitions.{write_chain_definition_file, rm_chain}
use eris_cli.Chains.Register.{ensure_data}

-- `do.CSV` split at commas.
unfoldable pub csv_files : Text → List Text
csv_files [] = []
csv_files (c ∷ csv) = split (c ∷ csv) b','

-- The paths of the lists in the container: one for both, or one for each.
unfoldable pub csv_paths : Text → Text → List Text → Text
csv_paths root id [] = []
csv_paths root id (f ∷ []) = root ++ (codes "/chains/" ++ (id ++ codes "/genesis.csv"))
csv_paths root id (f ∷ g ∷ fs) =
    let dir = root ++ (codes "/chains/" ++ (id ++ codes "/")) in
    dir ++ (codes "validators.csv" ++ (codes "," ++ (dir ++ codes "accounts.csv")))

abbrev csv_to_copy : List Text → List (Text × Text)
csv_to_copy [] = []
csv_to_copy (f ∷ []) = (f, codes "genesis.csv") ∷ []
csv_to_copy (f ∷ g ∷ fs) = (f, codes "validators.csv") ∷ (g, codes "accounts.csv") ∷ []

-- The files and their names in the chain's directory.
unfoldable pub files_to_copy : Do → List (Text × Text)
unfolding csv_files
files_to_copy asked =
    (asked.path, [])
    ∷ (asked.genesis_file, codes "genesis.json")
    ∷ (asked.config_file, codes "config.toml")
    ∷ (asked.priv, codes "priv_validator.json")
    ∷ csv_to_copy (csv_files asked.csv)

abbrev pair_flag : List Text → Option Text
pair_flag (key ∷ value ∷ []) = some (codes " --" ++ (key ++ (codes "=" ++ value)))
pair_flag _ = none

-- The options as flags, or the first that is no pair.
pub data Options : Type 0 where
  flags : Text → Options
  not_pair : Text → Options

unfoldable pub config_options : Text → List Text → Options
config_options before [] = flags before
config_options before (cv ∷ cvs) = elim (pair_flag (split cv b'=')) [
  | none ↦ not_pair cv
  | some flag ↦ config_options (before ++ flag) cvs
]

-- `if do.ChainID == "" { do.ChainID = do.Name }`
unfoldable pub chain_id_of : Do → Text
chain_id_of asked = elim asked.chain_id [ [] ↦ asked.name | c ∷ id ↦ c ∷ id ]

unfoldable pub setup_vars : Text → Do → Text → List Text
unfolding csv_paths csv_files chain_id_of
setup_vars root asked opts =
    let id = chain_id_of asked in
    (codes "CHAIN_ID=" ++ id)
    ∷ (codes "CONTAINER_NAME="
        ++ chain_containers_name asked.name asked.operations.container_number)
    ∷ (codes "CSV=" ++ csv_paths root id (csv_files asked.csv))
    ∷ (codes "CONFIG_OPTS=" ++ opts)
    ∷ (codes "NODE_ADDR=" ++ asked.gateway)
    ∷ codes "DOCKER_FIX=                                        "
    ∷ (asked.env ++ api_env asked.run)

unfoldable pub setup_service : Text → Do → Text → Text → Chain → Service
unfolding setup_vars
setup_service root asked cmd opts chain = record chain.service {
  command = cmd;
  environment = chain.service.environment ++ setup_vars root asked opts;
  links = chain.service.links ++ asked.links;
}

unfoldable pub setup_operation : Do → Chain → Operation
setup_operation asked chain = record chain.operations {
  publish_all_ports = asked.operations.publish_all_ports;
  data_container_name = data_containers_name asked.name asked.operations.container_number;
}

abbrev pub eris_chain_new : Text
eris_chain_new = codes "new"

abbrev pub eris_chain_install : Text
eris_chain_install = codes "install"

abbrev no_options : List Text → Bool
no_options [] = true
no_options (o ∷ os) = false

-- `do.GenesisFile == "" && do.CSV == "" && len(do.ConfigOpts) == 0`
abbrev all_empty : Do → Bool
all_empty asked =
    text_eq asked.genesis_file [] && text_eq asked.csv [] && no_options asked.config_opts

module _ (D : DockerClient) (w : World D) where
  open w use {env}

  unfoldable pub start_setup : Do → Text → Command (Text × D.State) (Unit {0})
  unfolding config_options setup_service setup_operation
  start_setup asked cmd = do
    chain ← on_named (load (load_chain D w asked.name asked.operations.container_number))
    elim (config_options [] asked.config_opts) [
      | not_pair cv ↦ fail (bad_option cv)
      | flags opts ↦ do
        boot_dependencies D w asked.operations.container_number chain.name chain.dependencies
        let srv = setup_service env.container_root asked cmd opts chain
        let ops = setup_operation asked chain
        on_named (perform D perform_error (docker_run_service D env) srv ops)
    ]

module _ {S : Type 0} where
  -- "if something goes wrong, cleanup"; the error of the clean up is added.
  unfoldable pub clean_up : Command S (Unit {0}) → Failure → Command S (Unit {0})
  clean_up remove e s =
      let (r, t) = remove s in
      elim r [ fails e2 ↦ (fails (tragic e e2), t) | returns _ ↦ (fails e, t) | other ↦ (other, t) ]

  unfoldable pub with_clean_up : Command S (Unit {0}) → Command S (Unit {0}) → Command S (Unit {0})
  unfolding clean_up
  with_clean_up remove body s =
      let (r, t) = body s in elim r [ fails e ↦ clean_up remove e t | other ↦ (other, t) ]

module _ (D : DockerClient) (M : Machine D) where
  open M use {join, chains_path, data_path, exists, is_dir}

  -- `util.ChainsPathChecker`; a file that is no directory gives an empty path and no error.
  unfoldable pub chains_path_checker : Text → M.Files → Option Text
  chains_path_checker name f =
      let path = join chains_path name in
      if exists path f then some (if is_dir path f then path else []) else none

  -- The path of the request, or that of a chain of this name, or of the default chain.
  unfoldable pub setup_path : Do → M.Files → Option Text
  unfolding chains_path_checker
  setup_path asked f = elim asked.path [
    | [] ↦ if all_empty asked then chains_path_checker (codes "default") f else some []
    | c ∷ path ↦ if is_dir (c ∷ path) f then some (c ∷ path) else chains_path_checker (c ∷ path) f
  ]

  -- What comes before the clean up is deferred: the request with its path and id.
  unfoldable pub prepare_setup : Do → Command (Site D M) Do
  unfolding setup_path chain_id_of
  prepare_setup asked = if text_eq asked.name [] then fail no_name else (do
    path ← reading (setup_path asked)
    elim path [
      | none ↦ fail file_error
      | some p ↦ do
        in_world D M (λ w. ensure_data D w asked)
        give (record asked { path = p; chain_id = chain_id_of asked })
    ])

  -- `copyFiles`; empty names are skipped.
  unfoldable pub copy_files : Text → List (Text × Text) → Command (Site D M) (Unit {0})
  copy_files dst [] = give tt
  copy_files dst (([], to) ∷ files) = copy_files dst files
  copy_files dst ((c ∷ from, to) ∷ files) = do
    must file_error (M.copy (c ∷ from) (join dst to))
    copy_files dst files

  unfoldable pub import_request : Text → Do → Do
  import_request root asked = record now_do {
    name = asked.name;
    operations = asked.operations;
    destination = root;
    source = join data_path asked.name;
  }

  -- "write the chain definition file", unless there is one.
  unfoldable pub write_mock : Do → Command (Site D M) (Unit {0})
  unfolding write_chain_definition_file
  write_mock asked = do
    let file = join chains_path asked.name ++ codes ".toml"
    chain ← in_world D M (λ w. load (λ s.
        mock_chain_definition D w.viper w.sources asked.name asked.chain_id
          (some asked.operations.container_number)))
    there ← reading (exists file)
    if there then give tt else write_chain_definition_file D M chain file

  unfoldable pub place_files : Do → Command (Site D M) (Unit {0})
  unfolding copy_files import_request files_to_copy
  place_files asked = do
    let dst = join (join data_path asked.name) (join (codes "chains") asked.name)
    must file_error (M.make_dirs dst)
    copy_files dst (files_to_copy asked)
    root ← reading (λ f. (M.world f).env.container_root)
    import_data D M 2 (import_request root asked)

  -- What the clean up is deferred over. Only the boot of the dependencies writes the name of the request.
  unfoldable pub set_up : Do → Text → Command (Text × Site D M) (Unit {0})
  unfolding place_files write_mock start_setup
  set_up asked cmd = do
    on_named (place_files asked)
    on_named (write_mock asked)
    in_named_world D M (λ w. start_setup D w asked cmd)

  -- `RmChain(do)`, with the name that the request has by then.
  unfoldable pub rm_named : Do → Command (Text × Site D M) (Unit {0})
  rm_named asked p = on_named (rm_chain D M (record asked { name = p.0 })) p

  unfoldable pub setup_chain : Do → Text → Command (Site D M) (Unit {0})
  unfolding prepare_setup with_clean_up set_up rm_named
  setup_chain asked cmd = do
    ready ← prepare_setup asked
    forgetting ready.name (with_clean_up (rm_named ready) (set_up ready cmd))

  -- An error of the removal of the old directory is dropped.
  unfoldable pub clear_old_data : Do → Command (Site D M) (Unit {0})
  clear_old_data asked = do
    let dir = join data_path asked.name
    there ← reading (exists dir)
    if there && asked.force then try_file (M.remove_all dir) else give tt

  unfoldable pub new_chain : Do → Command (Site D M) (Unit {0})
  unfolding clear_old_data setup_chain
  new_chain asked = do clear_old_data asked; setup_chain asked eris_chain_new

  unfoldable pub install_chain : Do → Command (Site D M) (Unit {0})
  unfolding setup_chain
  install_chain asked = setup_chain asked eris_chain_install
