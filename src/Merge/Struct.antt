-- ===== src/Merge/Struct.antt =====
-- `Merge` on the two structs, which it writes.
use eris_cli.Base.{◌≡◌, refl, List, [], ◌∷◌}
use eris_cli.Definitions.{Operation, Service}
use eris_cli.Merge.{
  Field, slice, dict, text, int, flag, struct, merged, err_merge_parameters, panic, merge,
  operation_fields, service_fields,
}
use eris_cli.Merge.Overlay.{overlay_operation, merge_operations}
use eris_cli.Merge.Overlay.Services.{overlay_service, merge_services}

-- The operation with these fields; other fields leave it as it is.
set_operation : Operation → List Field → Operation
set_operation o
      (text srv_container_name
        ∷ text srv_container_id
        ∷ text data_container_name
        ∷ text data_container_id
        ∷ text container_type
        ∷ int container_number
        ∷ text restart
        ∷ flag remove
        ∷ flag privileged
        ∷ flag interactive
        ∷ flag follow
        ∷ text app_name
        ∷ text docker_host_conn
        ∷ text volume
        ∷ dict labels
        ∷ flag publish_all_ports
        ∷ slice cap_add
        ∷ slice cap_drop
        ∷ slice args
        ∷ []) =
    record {
      srv_container_name = srv_container_name;
      srv_container_id = srv_container_id;
      data_container_name = data_container_name;
      data_container_id = data_container_id;
      container_type = container_type;
      container_number = container_number;
      restart = restart;
      remove = remove;
      privileged = privileged;
      interactive = interactive;
      follow = follow;
      app_name = app_name;
      docker_host_conn = docker_host_conn;
      volume = volume;
      labels = labels;
      publish_all_ports = publish_all_ports;
      cap_add = cap_add;
      cap_drop = cap_drop;
      args = args;
    }
set_operation o _ = o

set_service : Service → List Field → Service
set_service s
      (text name
        ∷ text image
        ∷ flag auto_data
        ∷ text command
        ∷ slice links
        ∷ slice ports
        ∷ slice expose
        ∷ slice volumes
        ∷ slice volumes_from
        ∷ slice environment
        ∷ slice env_file
        ∷ text net
        ∷ text pid
        ∷ slice dns
        ∷ slice dns_search
        ∷ text work_dir
        ∷ text entry_point
        ∷ text host_name
        ∷ text domain_name
        ∷ text user
        ∷ int cpu_shares
        ∷ int mem_limit
        ∷ text exec_host
        ∷ []) =
    record {
      name = name;
      image = image;
      auto_data = auto_data;
      command = command;
      links = links;
      ports = ports;
      expose = expose;
      volumes = volumes;
      volumes_from = volumes_from;
      environment = environment;
      env_file = env_file;
      net = net;
      pid = pid;
      dns = dns;
      dns_search = dns_search;
      work_dir = work_dir;
      entry_point = entry_point;
      host_name = host_name;
      domain_name = domain_name;
      user = user;
      cpu_shares = cpu_shares;
      mem_limit = mem_limit;
      exec_host = exec_host;
    }
set_service s _ = s

-- `Merge(base, over)`; the callers drop its error.
unfoldable pub merge_operation : Operation → Operation → Operation
unfolding set_operation
merge_operation base over =
    elim (merge (struct (operation_fields base)) (struct (operation_fields over))) [
      | merged fields ↦ set_operation base fields
      | err_merge_parameters ↦ base
      | panic ↦ base
    ]

unfoldable pub merge_service : Service → Service → Service
unfolding set_service
merge_service base over =
    elim (merge (struct (service_fields base)) (struct (service_fields over))) [
      | merged fields ↦ set_service base fields
      | err_merge_parameters ↦ base
      | panic ↦ base
    ]

set_operation-fields : (a b : Operation) → set_operation a (operation_fields b) ≡ b
unfolding set_operation operation_fields
set_operation-fields a b = refl

set_service-fields : (a b : Service) → set_service a (service_fields b) ≡ b
unfolding set_service service_fields
set_service-fields a b = refl

-- Merging writes the overlay.
pub merge_operation_lem : (a b : Operation) → merge_operation a b ≡ overlay_operation a b
unfolding merge_operation
merge_operation_lem a b = rw (merge_operation, merge_operations a b) (set_operation-fields a _)

pub merge_service_lem : (a b : Service) → merge_service a b ≡ overlay_service a b
unfolding merge_service
merge_service_lem a b = rw (merge_service, merge_services a b) (set_service-fields a _)
