-- ===== src/Chains/Setup/Conflicts.antt =====
-- The set up of a chain where there is a data container of its name already.
use eris_cli.Base.{◌≡◌, refl, some, true, false, []}
use eris_cli.Strings.{Text, text_eq}
use eris_cli.Definitions.Do.{Do}
use eris_cli.Docker.{ApiContainer, DockerClient}
use eris_cli.Labels.{load_data_definition}
use eris_cli.Listing.{parse_containers}
use eris_cli.Perform.Action.{container_exists}
use eris_cli.Command.{fails, perform_error, follow, give}
use eris_cli.Command.Machine.{Machine}
use eris_cli.Chains.Register.{ensure_data-conflicts}
use eris_cli.Chains.Setup.{setup_path, prepare_setup, setup_chain}

module _ (D : DockerClient) (M : Machine D) where
  -- If a container of the name of a chain's data container exists, and the paths of the request are
  -- found, then the set up of the chain fails and changes nothing: the test that is to spare the
  -- creation of the data container never does.
  pub setup_chain-conflicts :
      (asked : Do) (cmd path : Text) (s : D.State) (f : M.Files) (c : ApiContainer)
      → text_eq asked.name [] ≡ false
      → setup_path D M asked f ≡ some path
      → (let ops =
            load_data_definition
              (M.world f).sources.git_user
              asked.name
              asked.operations.container_number in
          parse_containers D s ops.srv_container_name true ≡ some c)
      → setup_chain D M asked cmd (s, f) ≡ (fails (perform_error container_exists), (s, f))
  unfolding setup_chain prepare_setup eris_cli.Command.Machine.reading
      eris_cli.Command.Machine.in_world
  setup_chain-conflicts asked cmd path s f c named found there =
      let conflicts = ensure_data-conflicts D (M.world f) asked s c there in
      rw (named, found, conflicts, setup_chain) refl
