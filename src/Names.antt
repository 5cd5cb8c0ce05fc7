-- ===== src/Names.antt =====
-- Container names, from util/container_info.go: `eris_<type>_<short name>_<number>`.
pub mod RoundTrip
use eris_cli.Base.{ℕ, Bool, ◌||◌, none, some, List, [], ◌∷◌, ◌++◌, if◌then◌else◌}
use eris_cli.Base.Int.{ℤ, pos}
use eris_cli.Strings.{Text, codes, text_eq, split, join, replace_first, last_or, init}
use eris_cli.Strings.Decimal.{itoa, atoi}

pub record ContainerName : Type 0 where
  pub full_name : Text
  pub dockers_name : Text
  pub short_name : Text
  pub number : ℤ
  pub typ : Text
  pub container_id : Text

abbrev pub blank : ContainerName
blank = record {
  full_name = [];
  dockers_name = [];
  short_name = [];
  number = pos 0;
  typ = [];
  container_id = [];
}

unfoldable pub container_assemble : Text → Text → ℤ → ContainerName
container_assemble typ name number =
    let full = codes "eris_" ++ (typ ++ (codes "_" ++ (name ++ (codes "_" ++ itoa number)))) in
    record {
      full_name = full;
      dockers_name = codes "/" ++ full;
      short_name = name;
      number = number;
      typ = typ;
      container_id = [];
    }

-- The tests of `ContainerDisassemble` on the parts of its argument.
disassemble_parts : Text → List Text → ContainerName
disassemble_parts container_name (p0 ∷ typ ∷ p2 ∷ p3 ∷ rest) =
    if text_eq p0 (codes "eris") || text_eq p0 (codes "/eris")
    then elim (atoi (last_or [] (p3 ∷ rest))) [
      | none ↦ blank
      | some num ↦
          let full = replace_first container_name (codes "/") [] in
          record {
            full_name = full;
            dockers_name = codes "/" ++ full;
            short_name = join (init (p2 ∷ p3 ∷ rest)) (codes "_");
            number = num;
            typ = typ;
            container_id = [];
          }
    ]
    else blank
disassemble_parts container_name _ = blank

unfoldable pub container_disassemble : Text → ContainerName
unfolding disassemble_parts
container_disassemble container_name = disassemble_parts container_name (split container_name b'_')

unfoldable pub containers_name : Text → Text → ℤ → Text
unfolding container_assemble
containers_name typ name number = (container_assemble typ name number).full_name

unfoldable pub containers_number : Text → ℤ
containers_number name = (container_disassemble name).number

unfoldable pub containers_type : Text → Text
containers_type name = (container_disassemble name).typ

unfoldable pub containers_short_name : Text → Text
containers_short_name name = (container_disassemble name).short_name

abbrev pub type_service : Text
type_service = codes "service"

abbrev pub type_chain : Text
type_chain = codes "chain"

abbrev pub type_data : Text
type_data = codes "data"

unfoldable pub service_containers_name : Text → ℤ → Text
unfolding containers_name
service_containers_name name number = containers_name type_service name number

unfoldable pub chain_containers_name : Text → ℤ → Text
unfolding containers_name
chain_containers_name name number = containers_name type_chain name number

unfoldable pub data_containers_name : Text → ℤ → Text
unfolding containers_name
data_containers_name name number = containers_name type_data name number

unfoldable pub service_to_data_container : Text → Text
unfolding replace_first
service_to_data_container name = replace_first name type_service type_data

unfoldable pub chain_to_data_container : Text → Text
unfolding replace_first
chain_to_data_container name = replace_first name type_chain type_data

unfoldable pub data_container_to_service : Text → Text
unfolding replace_first
data_container_to_service name = replace_first name type_data type_service

unfoldable pub data_container_to_chain : Text → Text
unfolding replace_first
data_container_to_chain name = replace_first name type_data type_chain
