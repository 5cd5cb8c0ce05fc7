-- ===== src/Contracts.antt =====
-- Packages of contracts: the type of the app and its chain (loaders/contracts.go), and how the chain
-- is linked (contracts/operate.go). The run of a package is in Booting, Run and CleanUp.
pub mod Boot
pub mod Epm
pub mod Booting
pub mod CleanUp
pub mod Run
use eris_cli.Base.{
  Bool, true, false, ◌||◌, ◌&&◌, Option, none, some, List, [], ◌∷◌, ◌++◌, ◌==◌, length,
  if◌then◌else◌,
}
use eris_cli.Base.Int.{ℤ}
use eris_cli.Strings.{Text, codes, text_eq, any_text, contains}
use eris_cli.Definitions.{Operation, Service}
use eris_cli.Names.{service_containers_name, chain_containers_name}

-- An app type; the image of the first depends on the program's version.
pub record AppType : Type 0 where
  pub name : Text
  pub base_image : Text
  pub deploy_cmd : Text
  pub test_cmd : Text
  pub entry_point : Text
  pub chain_types : List Text

unfoldable pub epm_app : Text → AppType
epm_app version = record {
  name = codes "epm";
  base_image = codes "quay.io/eris/epm:" ++ version;
  deploy_cmd = [];
  test_cmd = [];
  entry_point = codes "epm --chain chain:46657 --sign keys:4767";
  chain_types = codes "mint" ∷ [];
}

unfoldable pub embark_app : AppType
embark_app = record {
  name = codes "embark";
  base_image = codes "quay.io/eris/embark_base";
  deploy_cmd = codes "deploy";
  test_cmd = codes "spec";
  entry_point = codes "embark";
  chain_types = codes "eth" ∷ [];
}

unfoldable pub sunit_app : AppType
sunit_app = record {
  name = codes "sunit";
  base_image = codes "quay.io/eris/sunit_base";
  deploy_cmd = codes "nil";
  test_cmd = codes "--coverage";
  entry_point = codes "sunit";
  chain_types = codes "mint" ∷ [];
}

unfoldable pub gulp_app : AppType
gulp_app = record {
  name = codes "manual";
  base_image = codes "quay.io/eris/gulp";
  deploy_cmd = [];
  test_cmd = [];
  entry_point = codes "gulp";
  chain_types = codes "eth" ∷ codes "mint" ∷ [];
}

-- The fields of a package that the modelled code reads, but for its app type.
pub record Package : Type 0 where
  pub name : Text
  pub chain_name : Text
  pub test_type : Text
  pub deploy_type : Text
  pub test_task : Text
  pub deploy_task : Text

-- `pwd` is the base of the working directory.
unfoldable pub default_contract_package : Text → Package
default_contract_package pwd = record {
  name = pwd;
  chain_name = [];
  test_type = codes "epm";
  deploy_type = codes "epm";
  test_task = codes "default";
  deploy_task = codes "default";
}

-- The name of the type: the flag, or that of the package for the command.
unfoldable pub type_for : Package → Text → Text → Text
type_for app command [] =
    if text_eq command (codes "test")
    then app.test_type
    else if text_eq command (codes "deploy")
    then app.deploy_type
    else []
type_for app command (c ∷ typ) = c ∷ typ

unfoldable pub set_app_type : Text → Package → Text → Text → AppType
unfolding type_for epm_app embark_app sunit_app gulp_app
set_app_type version app command typ =
    let t = type_for app command typ in
    if text_eq t (codes "embark")
    then embark_app
    else if text_eq t (codes "sunit")
    then sunit_app
    else if text_eq t (codes "manual")
    then gulp_app
    else epm_app version

-- The chain that is tested: `none` for no chain or a temporary one.
unfoldable pub chain_to_check : Package → Text → Option Text
chain_to_check app name =
    if text_eq name []
    then (if text_eq app.chain_name [] then none else some app.chain_name)
    else if any_text name (codes "t" ∷ codes "tmp" ∷ codes "temp" ∷ [])
    then none
    else some name

abbrev only_eth : List Text → Bool
only_eth [] = false
only_eth (t ∷ []) = text_eq t (codes "eth")
only_eth (t ∷ u ∷ ts) = false

-- Whether there is no error.
unfoldable pub check_app_and_chain : Package → AppType → Text → Bool
unfolding chain_to_check
check_app_and_chain app typ name = elim (chain_to_check app name) [
  | none ↦ true
  | some chain ↦ if only_eth typ.chain_types then contains chain (codes "eth") else true
]

-- The command of `DefineAppActionService` and the app type, or `none` for its two errors.
unfoldable pub app_command : Package → AppType → Text → Text → Option (Text × AppType)
unfolding gulp_app
app_command app typ name task =
    let is_test = text_eq name (codes "test") in
    let is_deploy = text_eq name (codes "deploy") in
    let cmd = if is_test then typ.test_cmd else typ.deploy_cmd in
    let manual =
      if text_eq typ.name (codes "manual")
      then (if is_test then app.test_task else app.deploy_task)
      else cmd in
    let given = if text_eq task [] then manual else task in
    let chosen = if text_eq task [] then typ else gulp_app in
    if is_test || is_deploy
    then (if text_eq given (codes "nil") then none else some (given, chosen))
    else none

-- `linkAppToChain`
unfoldable pub link_app_to_chain : Text → Text → ℤ → Service → Service
link_app_to_chain chain_type chain_name number srv =
    let container =
      if text_eq chain_type (codes "service")
      then service_containers_name chain_name number
      else chain_containers_name chain_name number in
    record srv {
      links =
          srv.links
          ++ ((container ++ codes ":chain")
              ∷ (service_containers_name (codes "keys") number ++ codes ":keys")
              ∷ []);
    }
