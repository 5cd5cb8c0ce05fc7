-- ===== src/Services.antt =====
-- Whether a service's container exists or runs (services/load.go). The functions write what they find
-- into the operation, which is part of the result.
pub mod Load
pub mod Group
pub mod Chains
pub mod Operate
pub mod Manage
pub mod Definitions
pub mod Started
pub mod Stopped
pub mod Composed
use eris_cli.Base.{Bool, true, false, ◌&&◌, none, some, [], if◌then◌else◌}
use eris_cli.Strings.{text_eq}
use eris_cli.Definitions.{Operation, Service}
use eris_cli.Docker.{DockerClient}
use eris_cli.Names.{ContainerName}
use eris_cli.Listing.{find_service_container, find_data_container}

module _ (D : DockerClient) (s : D.State) where
  -- "populate data container specifics"
  unfoldable pub populate_data : Service → Operation → Operation
  populate_data service ops =
      if service.auto_data && text_eq ops.data_container_id []
      then elim (find_data_container D s service.name ops.container_number) [
        | none ↦ ops
        | some d ↦ record ops {
          data_container_name = d.dockers_name;
          data_container_id = d.container_id;
        }
      ]
      else ops

  -- `parseContainers`
  unfoldable pub parse_service : Service → Operation → Bool → Bool × Operation
  unfolding populate_data
  parse_service service ops all =
      elim (find_service_container D s service.name ops.container_number all) [
        | none ↦ (false, ops)
        | some c ↦ (
          true,
          populate_data service (record ops {
            srv_container_name = c.dockers_name;
            srv_container_id = c.container_id;
          }),
        )
      ]

  unfoldable pub is_service_existing : Service → Operation → Bool × Operation
  unfolding parse_service
  is_service_existing service ops = parse_service service ops true

  unfoldable pub is_service_running : Service → Operation → Bool × Operation
  unfolding parse_service
  is_service_running service ops = parse_service service ops false
