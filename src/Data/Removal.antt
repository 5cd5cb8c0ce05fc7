-- ===== src/Data/Removal.antt =====
-- `RmData` of data/manage.go, with the folders on the host.
use eris_cli.Base.{List, [], ◌∷◌, if◌then◌else◌}
use eris_cli.Strings.{Text}
use eris_cli.Definitions.Do.{Do}
use eris_cli.Docker.{DockerClient}
use eris_cli.Command.{file_error, Command, give, ◌>>◌}
use eris_cli.Command.Machine.{Machine, Site, must, in_world}
use eris_cli.Data.{rm_one}

module _ (D : DockerClient) (M : Machine D) where
  open M use {join, data_path}

  unfoldable pub rm_folder : Do → Text → Command (Site D M) (Unit {0})
  rm_folder asked name =
      if asked.rm_hf then must file_error (M.remove_all (join data_path name)) else give tt

  unfoldable pub rm_each : Do → List Text → Command (Site D M) (Unit {0})
  unfolding rm_folder
  rm_each asked [] = give tt
  rm_each asked (name ∷ names) = do
    in_world D M (λ w. rm_one D w asked.volumes asked.operations.container_number name)
    rm_folder asked name
    rm_each asked names

  -- Without arguments, the name is the one data container.
  unfoldable pub rm_data : Do → Command (Site D M) (Unit {0})
  unfolding rm_each
  rm_data asked =
      rm_each asked (elim asked.operations.args [ [] ↦ asked.name ∷ [] | n ∷ ns ↦ n ∷ ns ])
