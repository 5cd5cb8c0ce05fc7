-- ===== src/Tests/Chains.antt =====
-- Chains, links and names from the definition files in memory.
use eris_cli.Base.{◌≡◌, ◌↔◌, ◌⊎◌, refl, All, Bool, true, false, some, List, [], ◌∷◌, ◌++◌, map}
use eris_cli.Base.Int.{pos}
use eris_cli.Strings.{Text, codes}
use eris_cli.Definitions.{
  label_eris, Dependencies, Service, ServiceDefinition, blank_service, blank_operation,
}
use eris_cli.Definitions.Do.{now_do}
use eris_cli.Docker.{done, ApiContainer, DockerClient}
use eris_cli.Names.{
  ContainerName, service_containers_name, data_containers_name, type_service, type_chain,
}
use eris_cli.Listing.{find_service_container, find_data_container}
use eris_cli.Loaders.Outcome.{loaded, panicked, unreadable}
use eris_cli.Loaders.Connect.{add_dependency_volumes_and_links}
use eris_cli.Loaders.Connected.{
  add_dependency_volumes_and_links_lem, links_of, mounts_of, with_both, bare,
}
use eris_cli.Loaders.Finalize.{service_finalize_load}
use eris_cli.Loaders.Harmonized.{
  Finalized, service_finalize_load-Harmonized, service_finalize_load-canonical,
}
use eris_cli.Command.{returns, fails, load_error}
use eris_cli.Services.Chains.{build_chain_group}
use eris_cli.Services.Chains.Linked.{ChainGroup, build_chain_group-ChainGroup}
use eris_cli.Chains.Operate.{load_chain, check_chains, boot_dependencies}
use eris_cli.Chains.Misnamed.{Booted, StopsAt, boot_dependencies-misnames}
use eris_cli.Chains.Booted.{IsUp, boot_dependencies-IsUp}
use eris_cli.Contracts.Boot.{boot_chain, boot_chain-unloadable}
use eris_cli.Actions.Perform.{
  Action, perform_command, resolve_chain, start_services, start_services_and_chains,
  environment_vars,
}
use eris_cli.Actions.Perform.Resolved.{perform_command_lem, each_with_prev, resolve_chain_drops}
use eris_cli.Clean.{default_clean}
use eris_cli.Clean.Removals.{Removes, default_clean_iff}
use eris_cli.Tests.Daemon.{memory, Entry}
use eris_cli.Tests.Containers.{made}
use eris_cli.Tests.World.{world, db, app_def, db_def, main_chain}

abbrev grouped : List ServiceDefinition
grouped = elim (build_chain_group memory world [] (db_def ∷ app_def ∷ []) []).0 [
  | returns all ↦ all
  | _ ↦ []
]

build_chain_group-ChainGroup_example :
    (◌≡◌ {A = List Entry} [] []) × ChainGroup memory world [] [] (db_def ∷ app_def ∷ []) grouped
unfolding build_chain_group eris_cli.Strings.text_eq eris_cli.Command.give
    eris_cli.Services.Chains.choose_chain eris_cli.Strings.has_prefix eris_cli.Command.load
    eris_cli.Loaders.Chain.chains_as_a_service eris_cli.Dependency.parse_dependency
    eris_cli.Strings.split
build_chain_group-ChainGroup_example =
    build_chain_group-ChainGroup memory world [] [] (db_def ∷ app_def ∷ []) grouped [] refl

abbrev deps : Dependencies
deps = record {
  chains = codes "main:chain:l" ∷ [];
  services = codes "db:store:v" ∷ codes "keys" ∷ [];
}

add_dependency_volumes_and_links_lem_example :
    add_dependency_volumes_and_links (pos 2) deps blank_service ≡ (
      record { chains = map bare deps.chains; services = map bare deps.services },
      with_both
          (links_of type_service (pos 2) deps.services ++ links_of type_chain (pos 2) deps.chains)
          (mounts_of type_service (pos 2) deps.services ++ mounts_of type_chain (pos 2) deps.chains)
          blank_service,
    )
add_dependency_volumes_and_links_lem_example =
    add_dependency_volumes_and_links_lem (pos 2) deps blank_service

abbrev unnamed : Service
unnamed = record blank_service { image = codes "eris/image"; auto_data = true }

abbrev unnamed_def : ServiceDefinition
unnamed_def = record app_def { name = []; service = some unnamed }

service_finalize_load-Harmonized_example :
    ((service_finalize_load memory [] unnamed_def ≡ panicked)
      × (◌≡◌ {A = Text} [] [])
      × (◌≡◌ {A = Text} [] [])
      × (codes "eris/image" ≡ []))
    ⊎ ((out : ServiceDefinition) × (service_finalize_load memory [] unnamed_def ≡ loaded out)
        × Finalized memory [] unnamed_def unnamed out)
service_finalize_load-Harmonized_example =
    service_finalize_load-Harmonized memory [] unnamed_def unnamed refl

abbrev entry : Text → Entry
entry name = record { name = name; running = true; container = made }

abbrev state : List Entry
state = entry (codes "eris_service_db_1") ∷ entry (codes "eris_chain_main_1") ∷ []

service_finalize_load-canonical_example :
    (codes "eris_service_db_1" ≡ service_containers_name db (pos 1))
    × (false ≡ true → codes "eris_data_db_1" ≡ data_containers_name db (pos 1))
unfolding service_finalize_load eris_cli.Strings.text_eq find_service_container find_data_container
    eris_cli.Listing.find_numbered eris_cli.Listing.Patterns.eris_reg_exp_links
    eris_cli.Listing.Patterns.eris_reg_exp eris_cli.Names.container_disassemble
    eris_cli.Strings.split eris_cli.Strings.replace_first eris_cli.Strings.Decimal.atoi
    eris_cli.Strings.join service_containers_name eris_cli.Strings.Decimal.itoa
service_finalize_load-canonical_example =
    service_finalize_load-canonical memory state db_def
      (record blank_service { name = db; image = codes "eris/image" })
      (record db_def {
        operations = record db_def.operations { srv_container_id = codes "eris_service_db_1" };
      })
      refl refl (λ c h. cc h) (λ c h. absurd (cc h))

boot_dependencies-IsUp_example :
    All (IsUp memory world (pos 1) state) (main_chain ∷ []) × (codes "front" ≡ codes "front")
unfolding boot_dependencies eris_cli.Command.load eris_cli.Loaders.Service.load_service_definition
    eris_cli.Strings.text_eq eris_cli.Loaders.Service.check_image eris_cli.Command.query
    eris_cli.Services.is_service_running find_service_container eris_cli.Listing.find_numbered
    eris_cli.Listing.Patterns.eris_reg_exp_links eris_cli.Listing.Patterns.eris_reg_exp
    eris_cli.Names.container_disassemble eris_cli.Strings.split eris_cli.Strings.replace_first
    eris_cli.Strings.Decimal.atoi eris_cli.Strings.join eris_cli.Command.give
    eris_cli.Loaders.Chain.load_chain_definition eris_cli.Listing.find_chain_container
    eris_cli.Command.Named.on_named
boot_dependencies-IsUp_example =
    boot_dependencies-IsUp memory world (pos 1) (codes "front") (codes "front") (codes "front")
      (record { chains = main_chain ∷ []; services = db ∷ [] }) state state refl

boot_dependencies-misnames_example :
    StopsAt memory world
      (pos 1)
      (codes "ghost")
      (db ∷ codes "ghost" ∷ [])
      (load_error (unreadable (codes "service") (codes "ghost")))
      state
      state
    ⊎ ((u : List Entry) × Booted memory world (pos 1) (db ∷ codes "ghost" ∷ []) state u
        × (codes "ghost" ≡ codes "front")
        × (check_chains memory world (pos 1) (codes "front") (main_chain ∷ []) u
            ≡ (fails (load_error (unreadable (codes "service") (codes "ghost"))), state)))
unfolding boot_dependencies eris_cli.Command.load eris_cli.Loaders.Service.load_service_definition
    eris_cli.Strings.text_eq eris_cli.Loaders.Service.check_image eris_cli.Command.query
    eris_cli.Services.is_service_running find_service_container eris_cli.Listing.find_numbered
    eris_cli.Listing.Patterns.eris_reg_exp_links eris_cli.Listing.Patterns.eris_reg_exp
    eris_cli.Names.container_disassemble eris_cli.Strings.split eris_cli.Strings.replace_first
    eris_cli.Strings.Decimal.atoi eris_cli.Strings.join eris_cli.Command.give
    eris_cli.Command.Named.on_named
boot_dependencies-misnames_example =
    boot_dependencies-misnames memory world (pos 1) (codes "front") (codes "front") (codes "ghost")
      (record { chains = main_chain ∷ []; services = db ∷ codes "ghost" ∷ [] })
      (load_error (unreadable (codes "service") (codes "ghost"))) state state refl

boot_chain-unloadable_example :
    boot_chain memory world
      (codes "ghost")
      (record blank_operation { container_number = pos 1 })
      state
    ≡ (returns (codes "chain", record blank_operation { container_number = pos 1 }), state)
unfolding load_chain eris_cli.Loaders.Chain.load_chain_definition eris_cli.Strings.text_eq
boot_chain-unloadable_example =
    boot_chain-unloadable memory world (codes "ghost")
      (record blank_operation { container_number = pos 1 }) state
      (unreadable (codes "chain") (codes "ghost")) refl

abbrev act : Action
act = record {
  dependencies = some (record { chains = []; services = db ∷ [] });
  chain = codes "main";
  steps = codes "one" ∷ codes "two" ∷ codes "three" ∷ [];
  environment = (codes "KEY", codes "value") ∷ [];
}

-- A shell that prints the step and keeps what it was given.
abbrev echo : Text → List Text → Text → List (List Text) → (Text × Bool) × List (List Text)
echo dir vars step seen = ((step ++ codes "\n", false), seen ++ vars ∷ [])

perform_command_lem_example :
    perform_command echo
      (some (codes "/home"))
      (codes "HOME=/root" ∷ [])
      (codes "prev=zero" ∷ [])
      act
      []
    ≡ each_with_prev
        (echo (codes "/home"))
        (codes "HOME=/root" ∷ (codes "prev=zero" ∷ environment_vars act.environment))
        []
        act.steps
        []
perform_command_lem_example =
    perform_command_lem echo (codes "/home") (codes "HOME=/root" ∷ []) (codes "prev=zero" ∷ []) act
      []

resolve_chain_drops_example :
    start_services_and_chains memory world now_do (resolve_chain [] act) []
    ≡ start_services memory world act.dependencies []
resolve_chain_drops_example = resolve_chain_drops memory world now_do act []

-- A daemon that lists the first of two containers with the label of Eris.
abbrev with_label : List ApiContainer
with_label =
    record {
      id = codes "eris_service_db_1";
      names = codes "/eris_service_db_1" ∷ [];
      labels = (label_eris, codes "true") ∷ [];
    }
    ∷ record { id = codes "other"; names = codes "/other" ∷ []; labels = [] }
    ∷ []

abbrev labelling : DockerClient
labelling = record memory { list_containers = λ all es. done with_label }

abbrev mixed : List Entry
mixed = entry (codes "eris_service_db_1") ∷ entry (codes "other") ∷ []

abbrev cleaned : List Entry
cleaned = entry (codes "other") ∷ []

default_clean_iff_example :
    (default_clean labelling false [] mixed ≡ (done tt, cleaned))
    ↔ Removes labelling with_label mixed cleaned
default_clean_iff_example = default_clean_iff labelling [] with_label mixed cleaned refl
