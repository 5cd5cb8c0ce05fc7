-- ===== src/Definitions/Do.antt =====
-- `Do` of definitions/do.go: what a command is asked for, less the fields that no modelled code reads.
use eris_cli.Base.{ℕ, Bool, false, List, []}
use eris_cli.Strings.{Text}
use eris_cli.Definitions.{Operation, blank_operation}

pub record Do : Type 0 where
  pub name : Text
  pub new_name : Text
  pub chain_name : Text
  pub chain_id : Text
  pub image : Text
  pub type_name : Text
  pub force : Bool
  pub file : Bool
  pub pull : Bool
  pub run : Bool
  pub rm : Bool
  pub rm_d : Bool
  pub rm_hf : Bool
  pub volumes : Bool
  pub timeout : ℕ
  pub services_slice : List Text
  pub env : List Text
  pub links : List Text
  pub path : Text
  pub genesis_file : Text
  pub config_file : Text
  pub priv : Text
  pub gateway : Text
  pub verbose : Bool
  pub debug : Bool
  pub output_table : Bool
  pub csv : Text
  pub epm_config_file : Text
  pub config_opts : List Text
  pub contracts_path : Text
  pub abi_path : Text
  pub default_gas : Text
  pub compiler : Text
  pub default_addr : Text
  pub default_fee : Text
  pub default_amount : Text
  pub pubkey : Text
  pub task : Text
  pub source : Text
  pub destination : Text
  pub quiet : Bool
  pub all : Bool
  pub known : Bool
  pub running : Bool
  pub existing : Bool
  pub operations : Operation

abbrev pub now_do : Do
now_do = record {
  name = [];
  new_name = [];
  chain_name = [];
  chain_id = [];
  image = [];
  type_name = [];
  force = false;
  file = false;
  pull = false;
  run = false;
  rm = false;
  rm_d = false;
  rm_hf = false;
  volumes = false;
  timeout = 0;
  services_slice = [];
  env = [];
  links = [];
  path = [];
  genesis_file = [];
  config_file = [];
  priv = [];
  gateway = [];
  verbose = false;
  debug = false;
  output_table = false;
  csv = [];
  epm_config_file = [];
  config_opts = [];
  contracts_path = [];
  abi_path = [];
  default_gas = [];
  compiler = [];
  default_addr = [];
  default_fee = [];
  default_amount = [];
  pubkey = [];
  task = [];
  source = [];
  destination = [];
  quiet = false;
  all = false;
  known = false;
  running = false;
  existing = false;
  operations = blank_operation;
}
