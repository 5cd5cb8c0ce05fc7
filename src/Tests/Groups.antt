-- ===== src/Tests/Groups.antt =====
-- Groups of services from the definition files in memory.
use eris_cli.Base.{
  ℕ, ◌≡◌, refl, sym, ◌∙◌, ap, ◌<◌, arith, false, Bool-cases, inl, inr, none, some, List, [], ◌∷◌,
  if◌then◌else◌,
}
use eris_cli.Base.Int.{pos}
use eris_cli.Strings.{Text, codes, text_eq}
use eris_cli.Strings.Laws.{text_eq_iff}
use eris_cli.Definitions.{ServiceDefinition}
use eris_cli.Loaders.Outcome.{Viper, Outcome, loaded, refused, unreadable}
use eris_cli.Services.Group.{load_named, build_services_group}
use eris_cli.Services.Group.Ordered.{GroupOf, build_services_group-GroupOf}
use eris_cli.Services.Group.Finite.{
  IsRanked, IsCyclic, build_services_group-ends, build_services_group-cyclic,
}
use eris_cli.Tests.Daemon.{memory}
use eris_cli.Tests.World.{app, db, ring, files, nobody, app_def, db_def, ring_def, loads_ring}

abbrev rank : Text → ℕ
rank name = if text_eq name app then 1 else 0

-- The files without the service that needs itself.
abbrev acyclic : Viper
acyclic = record files {
  read = λ typ name.
      if text_eq name app then some name else if text_eq name db then some name else none;
}

load_unread :
    (V : Viper) (name : Text)
    → V.read (codes "service") name ≡ none
    → load_named memory V nobody [] (pos 1) name ≡ refused (unreadable (codes "service") name)
unfolding load_named eris_cli.Loaders.Service.load_service_definition
    eris_cli.Loaders.Service.load_viper_config
load_unread V name h =
    rw
      (
        h, load_named, eris_cli.Loaders.Service.load_service_definition,
        eris_cli.Loaders.Service.load_viper_config,
      )
      refl

read_other :
    (name : Text)
    → text_eq name app ≡ false
    → text_eq name db ≡ false
    → acyclic.read (codes "service") name ≡ none
read_other name h k = rw (h, k) refl

loads_app_too : load_named memory acyclic nobody [] (pos 1) app ≡ loaded app_def
unfolding load_named eris_cli.Loaders.Service.load_service_definition text_eq
    eris_cli.Loaders.Service.check_image eris_cli.Loaders.Connect.connect_to_a_service
    eris_cli.Dependency.parse_dependency eris_cli.Strings.split eris_cli.Names.containers_name
    eris_cli.Listing.find_service_container eris_cli.Strings.Decimal.itoa
    eris_cli.Listing.find_numbered eris_cli.Names.service_containers_name
    eris_cli.Names.service_to_data_container eris_cli.Labels.make_labels eris_cli.Dict.insert
loads_app_too = refl

loads_db_too : load_named memory acyclic nobody [] (pos 1) db ≡ loaded db_def
unfolding load_named eris_cli.Loaders.Service.load_service_definition text_eq
    eris_cli.Loaders.Service.check_image eris_cli.Listing.find_service_container
    eris_cli.Listing.find_numbered eris_cli.Names.service_containers_name
    eris_cli.Names.service_to_data_container eris_cli.Labels.make_labels
    eris_cli.Strings.Decimal.itoa eris_cli.Dict.insert
loads_db_too = refl

acyclic-IsRanked : IsRanked memory acyclic nobody [] (pos 1) rank
unfolding text_eq
acyclic-IsRanked name d h = elim (Bool-cases (text_eq name app)) [
  | inl e ↦
      let named : name ≡ app = (text_eq_iff name app).0 e in
      let same : d ≡ app_def =
        cc (sym h ∙ ap (load_named memory acyclic nobody [] (pos 1)) named ∙ loads_app_too) in
      rw (same, named) ((omega arith), tt)
  | inr not_app ↦ elim (Bool-cases (text_eq name db)) [
    | inl e ↦
        let named : name ≡ db = (text_eq_iff name db).0 e in
        let same : d ≡ db_def =
          cc (sym h ∙ ap (load_named memory acyclic nobody [] (pos 1)) named ∙ loads_db_too) in
        rw same tt
    | inr not_db ↦ absurd (cc (sym h ∙ load_unread acyclic name (read_other name not_app not_db)))
  ]
]

build_services_group-ends_example :
    (r : Outcome (List ServiceDefinition)) × ((fuel : ℕ)
      → rank app < fuel
      → build_services_group memory acyclic nobody [] (pos 1) fuel app [] ≡ some r)
build_services_group-ends_example =
    build_services_group-ends memory acyclic nobody [] (pos 1) rank acyclic-IsRanked app []

built :
    build_services_group memory files nobody [] (pos 1) 5 app []
    ≡ some (loaded (db_def ∷ app_def ∷ []))
unfolding build_services_group eris_cli.Loaders.Service.load_service_definition text_eq
    eris_cli.Loaders.Service.check_image eris_cli.Loaders.Connect.connect_to_a_service
    eris_cli.Dependency.parse_dependency eris_cli.Strings.split
    eris_cli.Listing.find_service_container eris_cli.Names.containers_name
    eris_cli.Listing.find_numbered eris_cli.Strings.Decimal.itoa
    eris_cli.Names.service_containers_name eris_cli.Names.service_to_data_container
    eris_cli.Labels.make_labels eris_cli.Dict.insert
built = refl

build_services_group-GroupOf_example :
    GroupOf (load_named memory files nobody [] (pos 1)) app (db_def ∷ app_def ∷ [])
build_services_group-GroupOf_example =
    build_services_group-GroupOf memory files nobody [] (pos 1) 5 app (db_def ∷ app_def ∷ []) built

ring-IsCyclic : IsCyclic memory files nobody [] (pos 1) (λ name. name ≡ ring)
ring-IsCyclic name h = rw h (ring_def, ring, [], loads_ring, refl, refl)

build_services_group-cyclic_example :
    build_services_group memory files nobody [] (pos 1) 7 ring [] ≡ none
build_services_group-cyclic_example =
    build_services_group-cyclic memory files nobody [] (pos 1) (λ name. name ≡ ring) ring-IsCyclic 7
      ring [] refl
