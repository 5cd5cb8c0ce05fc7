-- ===== src/Definitions.antt =====
-- The structs of definitions/ that the modelled code reads, and the names of the labels.
pub mod Do
use eris_cli.Base.{Bool, false, Option, none, some, List, []}
use eris_cli.Base.Int.{ℤ, pos}
use eris_cli.Strings.{Text, codes}
use eris_cli.Dict.{Dict}

pub record Operation : Type 0 where
  pub srv_container_name : Text
  pub srv_container_id : Text
  pub data_container_name : Text
  pub data_container_id : Text
  pub container_type : Text
  pub container_number : ℤ
  pub restart : Text
  pub remove : Bool
  pub privileged : Bool
  pub interactive : Bool
  pub follow : Bool
  pub app_name : Text
  pub docker_host_conn : Text
  pub volume : Text
  pub labels : Option (Dict Text)
  pub publish_all_ports : Bool
  pub cap_add : List Text
  pub cap_drop : List Text
  pub args : List Text

abbrev pub blank_operation : Operation
blank_operation = record {
  srv_container_name = [];
  srv_container_id = [];
  data_container_name = [];
  data_container_id = [];
  container_type = [];
  container_number = pos 0;
  restart = [];
  remove = false;
  privileged = false;
  interactive = false;
  follow = false;
  app_name = [];
  docker_host_conn = [];
  volume = [];
  labels = none;
  publish_all_ports = false;
  cap_add = [];
  cap_drop = [];
  args = [];
}

pub record Service : Type 0 where
  pub name : Text
  pub image : Text
  pub auto_data : Bool
  pub command : Text
  pub links : List Text
  pub ports : List Text
  pub expose : List Text
  pub volumes : List Text
  pub volumes_from : List Text
  pub environment : List Text
  pub env_file : List Text
  pub net : Text
  pub pid : Text
  pub dns : List Text
  pub dns_search : List Text
  pub work_dir : Text
  pub entry_point : Text
  pub host_name : Text
  pub domain_name : Text
  pub user : Text
  pub cpu_shares : ℤ
  pub mem_limit : ℤ
  pub exec_host : Text

abbrev pub blank_service : Service
blank_service = record {
  name = [];
  image = [];
  auto_data = false;
  command = [];
  links = [];
  ports = [];
  expose = [];
  volumes = [];
  volumes_from = [];
  environment = [];
  env_file = [];
  net = [];
  pid = [];
  dns = [];
  dns_search = [];
  work_dir = [];
  entry_point = [];
  host_name = [];
  domain_name = [];
  user = [];
  cpu_shares = pos 0;
  mem_limit = pos 0;
  exec_host = [];
}

abbrev pub label_eris : Text
label_eris = codes "eris:ERIS"

abbrev pub label_short_name : Text
label_short_name = codes "eris:NAME"

abbrev pub label_number : Text
label_number = codes "eris:CONTAINER_NUMBER"

abbrev pub label_type : Text
label_type = codes "eris:TYPE"

abbrev pub label_user : Text
label_user = codes "eris:USER"

pub record Dependencies : Type 0 where
  pub chains : List Text
  pub services : List Text

-- The maintainer, the location and the machine are left out, which the modelled code only copies.
pub record ServiceDefinition : Type 0 where
  pub name : Text
  pub service_id : Text
  pub chain : Text
  pub service : Option Service
  pub dependencies : Option Dependencies
  pub operations : Operation

abbrev pub blank_service_definition : ServiceDefinition
blank_service_definition = record {
  name = [];
  service_id = [];
  chain = [];
  service = some blank_service;
  dependencies = none;
  operations = blank_operation;
}

-- The service of a chain is never `nil`: every chain starts as `blank_chain`.
pub record Chain : Type 0 where
  pub name : Text
  pub chain_id : Text
  pub chain_type : Text
  pub service : Service
  pub dependencies : Option Dependencies
  pub operations : Operation

abbrev pub blank_chain : Chain
blank_chain = record {
  name = [];
  chain_id = [];
  chain_type = [];
  service = blank_service;
  dependencies = none;
  operations = blank_operation;
}
