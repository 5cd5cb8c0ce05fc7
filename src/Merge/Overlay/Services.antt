-- ===== src/Merge/Overlay/Services.antt =====
-- What a merge of services does.
use eris_cli.Base.{◌≡◌, ◌++◌}
use eris_cli.Definitions.{Service}
use eris_cli.Merge.{struct, merged, merge, service_fields}
use eris_cli.Merge.Overlay.{
  text_over, int_over, flag_over, merge_struct, merge_text, merge_int, merge_flag, merge_slice,
}

-- The specification of a merge of services.
unfoldable pub overlay_service : Service → Service → Service
overlay_service a b = record {
  name = text_over a.name b.name;
  image = text_over a.image b.image;
  auto_data = flag_over a.auto_data b.auto_data;
  command = text_over a.command b.command;
  links = a.links ++ b.links;
  ports = a.ports ++ b.ports;
  expose = a.expose ++ b.expose;
  volumes = a.volumes ++ b.volumes;
  volumes_from = a.volumes_from ++ b.volumes_from;
  environment = a.environment ++ b.environment;
  env_file = a.env_file ++ b.env_file;
  net = text_over a.net b.net;
  pid = text_over a.pid b.pid;
  dns = a.dns ++ b.dns;
  dns_search = a.dns_search ++ b.dns_search;
  work_dir = text_over a.work_dir b.work_dir;
  entry_point = text_over a.entry_point b.entry_point;
  host_name = text_over a.host_name b.host_name;
  domain_name = text_over a.domain_name b.domain_name;
  user = text_over a.user b.user;
  cpu_shares = int_over a.cpu_shares b.cpu_shares;
  mem_limit = int_over a.mem_limit b.mem_limit;
  exec_host = text_over a.exec_host b.exec_host;
}

-- Merging two services neither fails nor panics, and overlays them: the texts, numbers and flags of
-- the second that are not zero replace those of the first, and its lists are appended.
pub merge_services :
    (a b : Service)
    → merge (struct (service_fields a)) (struct (service_fields b))
      ≡ merged (service_fields (overlay_service a b))
unfolding service_fields overlay_service
merge_services a b =
    merge_struct _ _ _ (search (merge_text, merge_int, merge_flag, merge_slice) depth 30)
