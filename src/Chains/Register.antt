-- ===== src/Chains/Register.antt =====
-- `RegisterChain` (chains/manage.go), `IsKnown` of data/manage.go with `_parseKnown` of data/load.go,
-- and how `setupChain` of chains/operate.go makes the data container.
use eris_cli.Base.{◌≡◌, refl, Bool, true, false, not, some, List, [], ◌∷◌, ◌++◌, if◌then◌else◌}
use eris_cli.Strings.{Text, codes, text_eq}
use eris_cli.Definitions.{Service, blank_service}
use eris_cli.Definitions.Do.{Do, now_do}
use eris_cli.Docker.{ApiContainer, DockerClient}
use eris_cli.Listing.{parse_containers}
use eris_cli.Perform.Action.{container_exists, raise}
use eris_cli.Files.{is_listed}
use eris_cli.Labels.{load_data_definition}
use eris_cli.Perform.Data.{docker_create_data, docker_run_data_only}
use eris_cli.Command.{
  fails, no_name, no_data_container, perform_error, Command, give, fail, crash_command, load, ◌>>=◌,
  ◌>>◌, perform,
}
use eris_cli.Command.World.{World}
use eris_cli.Command.Named.{forgetting}
use eris_cli.Chains.Operate.{load_chain, boot_dependencies}

-- `_parseKnown`. The listing takes the request by its pointer, prints and sets its result; it leaves
-- the arguments, which the test then goes through.
unfoldable pub listing_request : Do
listing_request = record now_do { existing = true }

unfoldable pub is_known : Text → Bool
unfolding listing_request is_listed
is_known name = is_listed name listing_request.operations.args

unfoldable pub register_vars : Do → Text → List Text
register_vars asked seeds =
    (codes "CHAIN_ID=" ++ asked.name)
    ∷ (codes "PUBKEY=" ++ asked.pubkey)
    ∷ (codes "ETCB_CHAIN_ID=" ++ asked.chain_id)
    ∷ (codes "NODE_ADDR=" ++ asked.gateway)
    ∷ (codes "NEW_P2P_SEEDS=" ++ seeds)
    ∷ asked.env

unfoldable pub registering_service : Do → Text → Service → Service
unfolding register_vars
registering_service asked seeds srv = record srv {
  environment = srv.environment ++ register_vars asked seeds;
  links = srv.links ++ asked.links;
}

module _ (D : DockerClient) (w : World D) where
  open w use {sources, env}

  -- The text that `DockerRunData` returns is dropped.
  unfoldable pub run_register : Do → Service → Command D.State (Unit {0})
  run_register asked srv =
      let ops = load_data_definition sources.git_user srv.name asked.operations.container_number in
      perform D perform_error (docker_run_data_only D env (some srv)) srv
        (record ops { args = codes "register" ∷ [] })

  -- What follows the test that the data container is there.
  unfoldable pub register_known : Do → Command D.State (Unit {0})
  unfolding registering_service run_register
  register_known asked = do
    chain ← load (load_chain D w asked.name asked.operations.container_number)
    elim asked.operations.args [
      | [] ↦ crash_command
      | seeds ∷ _ ↦ do
        forgetting asked.name
            (boot_dependencies D w asked.operations.container_number chain.name chain.dependencies)
        run_register asked (registering_service asked seeds chain.service)
    ]

  unfoldable pub register_chain : Do → Command D.State (Unit {0})
  unfolding register_known
  register_chain asked =
      if text_eq asked.name []
      then fail no_name
      else if is_known asked.name
      then register_known asked
      else fail no_data_container

  -- "ensure/create data container"
  unfoldable pub ensure_data : Do → Command D.State (Unit {0})
  ensure_data asked =
      let ops =
        load_data_definition sources.git_user asked.name asked.operations.container_number in
      if not (is_known asked.name)
      then perform D perform_error (docker_create_data D env) blank_service ops
      else give tt

  -- The registration of a chain fails for want of its data container, in every state of the daemon.
  pub register_chain-fails :
      (asked : Do) (s : D.State)
      → text_eq asked.name [] ≡ false
      → register_chain asked s ≡ (fails no_data_container, s)
  unfolding register_chain is_known fail
  register_chain-fails asked s named = rw (named, register_chain) refl

  -- The set up of a chain fails if there is a data container of its name: the test that is to spare its
  -- creation never does.
  pub ensure_data-conflicts :
      (asked : Do) (s : D.State) (c : ApiContainer)
      → let ops =
          load_data_definition sources.git_user asked.name asked.operations.container_number in
        parse_containers D s ops.srv_container_name true ≡ some c
        → ensure_data asked s ≡ (fails (perform_error container_exists), s)
  unfolding ensure_data is_known perform docker_create_data raise
      eris_cli.Perform.Calls.find_existing
  ensure_data-conflicts asked s c found = rw (found, ensure_data) refl
