-- ===== src/Loaders/Finalize.antt =====
-- `ServiceFinalizeLoad`: "things we want to *always* control".
use eris_cli.Base.{Bool, true, false, not, ◌&&◌, Option, none, some, [], if◌then◌else◌}
use eris_cli.Strings.{Text, codes, text_eq, replace_all}
use eris_cli.Definitions.{Operation, Service, ServiceDefinition}
use eris_cli.Docker.{DockerClient}
use eris_cli.Names.{service_containers_name, service_to_data_container}
use eris_cli.Listing.{find_service_container, find_data_container}
use eris_cli.Loaders.Outcome.{Outcome, loaded, panicked}

abbrev pub is_empty : Text → Bool
is_empty s = text_eq s []

-- The definition's name and the service's name, and its image. `none` is the explicit panic.
unfoldable pub harmonize : Text → Text → Text → Option (Text × Text)
harmonize name srv_name image =
    if is_empty name && (is_empty srv_name && is_empty image)
    then none
    else if is_empty name && (is_empty srv_name && not (is_empty image))
    then (let from_image = replace_all image (codes "/") (codes "_") in
        some (from_image, from_image))
    else if not (is_empty srv_name) && is_empty name
    then some (srv_name, srv_name)
    else if is_empty srv_name && not (is_empty name)
    then some (name, name)
    else some (name, srv_name)

module _ (D : DockerClient) (s : D.State) where
  unfoldable pub default_names : Text → Operation → Operation
  default_names name ops =
      let container = service_containers_name name ops.container_number in
      record ops {
        srv_container_name = container;
        data_container_name = service_to_data_container container;
      }

  unfoldable pub set_service_names : Text → Operation → Operation
  unfolding default_names
  set_service_names name ops = elim (find_service_container D s name ops.container_number true) [
    | some c ↦ record ops { srv_container_name = c.full_name; srv_container_id = c.container_id }
    | none ↦ default_names name ops
  ]

  unfoldable pub set_data_names : Text → Bool → Operation → Operation
  unfolding default_names
  set_data_names name false ops = ops
  set_data_names name true ops = elim (find_data_container D s name ops.container_number) [
    | some c ↦ record ops { data_container_name = c.full_name; data_container_id = c.container_id }
    | none ↦ default_names name ops
  ]

  -- The definition with both names.
  unfoldable pub finalize_named : ServiceDefinition → Service → Text × Text → ServiceDefinition
  unfolding set_service_names set_data_names
  finalize_named def srv (name, srv_name) = record def {
    name = name;
    service = some (record srv { name = srv_name });
    operations = set_data_names name srv.auto_data (set_service_names name def.operations);
  }

  -- Without a service the first tests read a field of a `nil` pointer.
  unfoldable pub service_finalize_load : ServiceDefinition → Outcome ServiceDefinition
  unfolding harmonize finalize_named
  service_finalize_load def = elim def.service [
    | none ↦ panicked
    | some srv ↦ elim (harmonize def.name srv.name srv.image) [
      | none ↦ panicked
      | some names ↦ loaded (finalize_named def srv names)
    ]
  ]
