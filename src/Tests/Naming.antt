-- ===== src/Tests/Naming.antt =====
-- Names of containers, what is found by them, and texts that name dependencies and volumes.
use eris_cli.Base.{Bool}
use eris_cli.Base.{ℕ, ap, ◌≡◌, refl, ◌≢◌, ◌<◌, All, true, false, some, [], ◌∷◌, arith}
use eris_cli.Base.Int.{int_eq, pos, max_int}
use eris_cli.Strings.{Text, codes, is_some, contains}
use eris_cli.Names.{container_assemble, container_disassemble, service_containers_name}
use eris_cli.Names.RoundTrip.{disassemble-slash-assemble}
use eris_cli.Docker.{ApiContainer, DockerClient, done}
use eris_cli.Listing.{eris_containers_by_type, parse_containers}
use eris_cli.Listing.Find.{Found, IsNameable, find-listed}
use eris_cli.Listing.Prefix.{parse_containers_confuses}
use eris_cli.Numbering.{auto_magic}
use eris_cli.Numbering.Fresh.{auto_magic-fresh}
use eris_cli.Dependency.{parse_dependency, Dependency}
use eris_cli.Dependency.Laws.{parse-print_dependency, print_dependency}
use eris_cli.Tests.Daemon.{memory}
use eris_cli.Strings.{text_eq}
use eris_cli.Dict.{Dict}
use eris_cli.Definitions.{Operation, blank_operation, Service, blank_service}

disassemble-slash-assemble_example :
    container_disassemble (codes "/eris_service_my_ipfs_12")
    ≡ container_assemble (codes "service") (codes "my_ipfs") (pos 12)
unfolding container_assemble eris_cli.Strings.Decimal.itoa
disassemble-slash-assemble_example =
    disassemble-slash-assemble (codes "service") (codes "my_ipfs") (pos 12) (omega arith)
      (omega arith)

abbrev other : ApiContainer
other = record { id = codes "a"; names = codes "/postgres" ∷ []; labels = [] }

abbrev twelfth : ApiContainer
twelfth = record { id = codes "b"; names = codes "/eris_service_ipfs_12" ∷ []; labels = [] }

-- A daemon that lists two containers.
abbrev two : DockerClient
two = record memory { list_containers = λ all es. done (other ∷ twelfth ∷ []) }

abbrev one : DockerClient
one = record memory { list_containers = λ all es. done (twelfth ∷ []) }

ipfs-IsNameable : IsNameable (codes "service") (codes "ipfs")
ipfs-IsNameable = record {
  typ_plain = omega arith;
  typ_no_slash = omega arith;
  name_no_slash = omega arith;
  name_line = omega arith;
  name_given = λ h. absurd (cc h);
}

find-listed_example :
    Found (codes "ipfs") (pos 12) (eris_containers_by_type two [] (codes "service") true)
unfolding container_assemble eris_cli.Strings.Decimal.itoa
find-listed_example =
    find-listed two [] (codes "service") (codes "ipfs") 12 true (other ∷ []) [] twelfth
      ipfs-IsNameable (omega arith) refl refl

parse_containers_confuses_example :
    parse_containers one [] (service_containers_name (codes "ipfs") (pos 1)) true ≡ some twelfth
unfolding service_containers_name eris_cli.Strings.Decimal.itoa
parse_containers_confuses_example =
    parse_containers_confuses one [] (codes "ipfs") 1 2 true twelfth (λ h. absurd (cc h))
      (omega arith) (omega arith) (omega arith) refl refl

twelve_not_max : pos 12 ≢ pos max_int
twelve_not_max h = absurd (cc (ap (int_eq (pos 12)) h))

auto_magic-fresh_example :
    (n : ℕ) × (auto_magic two [] (codes "service") true ≡ pos n)
    × (0 < n)
    × All (λ c. c.number ≢ pos n) (eris_containers_by_type two [] (codes "service") true)
unfolding eris_containers_by_type eris_cli.Listing.Patterns.eris_reg_exp_links
    eris_cli.Listing.Patterns.eris_reg_exp container_disassemble eris_cli.Strings.split
    eris_cli.Strings.replace_first eris_cli.Strings.text_eq eris_cli.Strings.Decimal.atoi
auto_magic-fresh_example = auto_magic-fresh two [] (codes "service") (twelve_not_max, tt)

abbrev tiny : Dependency
tiny = record { name = codes "tinydns"; internal_name = codes "tiny"; link = true; mount = false }

parse-print_dependency_example : parse_dependency (print_dependency tiny) ≡ tiny
parse-print_dependency_example =
    parse-print_dependency (codes "tinydns") (codes "tiny") true false (omega arith) (omega arith)
      (λ h. absurd (cc h))

abbrev ipfs : Service
ipfs = record blank_service { name = codes "ipfs" }

abbrev number_12 : Operation
number_12 = record blank_operation { container_number = pos 12 }

abbrev args : Dict Text
args = (codes "$1", codes "a") ∷ (codes "$2", codes "b") ∷ []

abbrev is_greet : Text → Bool
is_greet name = text_eq name (codes "greet")
