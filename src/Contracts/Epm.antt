-- ===== src/Contracts/Epm.antt =====
-- `prepareEpmAction` of contracts/operate.go. `join` stands for Go's `path.Join`.
use eris_cli.Base.{Bool, List, [], ◌∷◌, ◌++◌, if◌then◌else◌}
use eris_cli.Strings.{Text, codes}
use eris_cli.Definitions.{Service}
use eris_cli.Definitions.Do.{Do}

-- A flag with its value, unless the value is empty.
unfoldable pub add_flag : Text → Text → Text → Text
add_flag flag [] entry = entry
add_flag flag (c ∷ value) entry = entry ++ (flag ++ c ∷ value)

-- A flag with a file of the working directory, unless the file is empty.
unfoldable pub add_file : (Text → Text) → Text → Text → Text → Text
add_file within flag [] entry = entry
add_file within flag (c ∷ file) entry = entry ++ (flag ++ within (c ∷ file))

-- The loop over the options, which puts a comma before each.
unfoldable pub add_opts : List Text → Text
add_opts [] = []
add_opts (opt ∷ opts) = codes "," ++ (opt ++ add_opts opts)

unfoldable pub add_sets : List Text → Text → Text
unfolding add_opts
add_sets [] entry = entry
add_sets (opt ∷ opts) entry = entry ++ (codes " --set " ++ add_opts (opt ∷ opts))

abbrev pub output_format : Text → Text
output_format [] = codes "json"
output_format (c ∷ csv) = c ∷ csv

abbrev pub if_env : Bool → Text → List Text
if_env on line = if on then line ∷ [] else []

unfoldable pub epm_entry_point : (Text → Text → Text) → Do → Service → Text
unfolding add_flag add_file add_sets
epm_entry_point join asked srv =
    let within = join srv.work_dir in
    let formatted = srv.entry_point ++ (codes " --output " ++ output_format asked.csv) in
    let filed = add_file within (codes " --file ") asked.epm_config_file formatted in
    let set = add_sets asked.config_opts filed in
    let summed = if asked.output_table then set ++ codes " --summary " else set in
    let contracts = add_file within (codes " --contracts-path ") asked.contracts_path summed in
    let abi = add_file within (codes " --abi-path ") asked.abi_path contracts in
    let gas = add_flag (codes " --gas ") asked.default_gas abi in
    let compiled = add_flag (codes " --compiler ") asked.compiler gas in
    let addressed = add_flag (codes " --address ") asked.default_addr compiled in
    let paid = add_flag (codes " --fee ") asked.default_fee addressed in
    add_flag (codes " --amount ") asked.default_amount paid

unfoldable pub prepare_epm_action : (Text → Text → Text) → Do → Service → Service
unfolding epm_entry_point
prepare_epm_action join asked srv = record srv {
  environment =
      srv.environment
      ++ (if_env asked.verbose (codes "EPM_VERBOSE=true")
          ++ if_env asked.debug (codes "EPM_DEBUG=true"));
  entry_point = epm_entry_point join asked srv;
}
