-- ===== src/Data.antt =====
-- Data containers (data/load.go, data/manage.go and data/operate.go). What moves files into a container
-- and out of it is in Data/Transfer, and the removal in Data/Removal.

pub mod Transfer
pub mod Removal
use eris_cli.Base.{Bool, false, none, some, List, [], ◌∷◌, if◌then◌else◌}
use eris_cli.Base.Int.{ℤ, pos, int_eq}
use eris_cli.Strings.{Text}
use eris_cli.Definitions.{
  Operation, blank_operation, blank_service, ServiceDefinition, blank_service_definition,
}
use eris_cli.Definitions.Do.{Do}
use eris_cli.Docker.{DockerClient}
use eris_cli.Names.{containers_name, data_containers_name, type_data}
use eris_cli.Listing.{is_data_container}
use eris_cli.Labels.{load_data_definition}
use eris_cli.Merge.Struct.{merge_operation}
use eris_cli.Perform.Data.{docker_exec_data}
use eris_cli.Perform.Lifecycle.{docker_remove, docker_inspect}
use eris_cli.Perform.Rename.{docker_rename}
use eris_cli.Command.{perform_error, unknown_data, Command, give, fail, query, ◌>>=◌, ◌>>◌, perform}
use eris_cli.Command.World.{World}

-- `PretendToBeAService`; without a number, or with 0, it is 1.
unfoldable pub pretend_to_be_a_service : Text → ℤ → ServiceDefinition
pretend_to_be_a_service name given =
    let number = if int_eq given (pos 0) then pos 1 else given in
    let container = data_containers_name name number in
    record blank_service_definition {
      name = name;
      service = some (record blank_service { name = name });
      operations = record blank_operation {
        container_number = number;
        srv_container_name = container;
        data_container_name = container;
      };
    }

-- The operation that names a data container as the container to work on.
unfoldable pub on_data_container : Text → ℤ → Operation
on_data_container name number = record blank_operation {
  srv_container_name = containers_name type_data name number;
}

module _ (D : DockerClient) (w : World D) where
  open w use {sources, env}

  abbrev data_known : Text → ℤ → D.State → Bool
  data_known name number s = is_data_container D s name number

  unfoldable pub exec_data : Do → Command D.State (Unit {0})
  exec_data asked = do
    known ← query (data_known asked.name asked.operations.container_number)
    let ops = load_data_definition sources.git_user asked.name asked.operations.container_number
    let run =
        perform D perform_error (docker_exec_data D env none) blank_service
          (merge_operation ops asked.operations)
    if known then run else fail (unknown_data asked.name)

  unfoldable pub rename_data : Do → Command D.State (Unit {0})
  rename_data asked = do
    known ← query (data_known asked.name asked.operations.container_number)
    let ops = load_data_definition sources.git_user asked.name asked.operations.container_number
    let rename =
        perform D perform_error (docker_rename D env asked.new_name) blank_service
          (merge_operation ops asked.operations)
    if known then rename else fail (unknown_data asked.name)

  unfoldable pub inspect_data : Do → Command D.State (Unit {0})
  unfolding on_data_container
  inspect_data asked = do
    known ← query (data_known asked.name asked.operations.container_number)
    let ops = on_data_container asked.name asked.operations.container_number
    let inspect = perform D perform_error (docker_inspect D env) blank_service ops
    if known then inspect else fail (unknown_data asked.name)

  unfoldable pub rm_one : Bool → ℤ → Text → Command D.State (Unit {0})
  unfolding on_data_container
  rm_one volumes number name = do
    known ← query (data_known name number)
    let ops = on_data_container name number
    let remove = perform D perform_error (docker_remove D env false volumes) blank_service ops
    if known then remove else fail (unknown_data name)
