-- ===== src/Tests/World.antt =====
-- Definition files in memory, and what the program reads besides the daemon.
use eris_cli.Base.{◌≡◌, refl, true, false, Option, none, some, [], ◌∷◌, ◌++◌, if◌then◌else◌}
use eris_cli.Base.Int.{pos}
use eris_cli.Strings.{Text, codes, text_eq}
use eris_cli.Definitions.{Dependencies, ServiceDefinition, blank_operation, blank_service}
use eris_cli.Loaders.Outcome.{Viper, Sources, loaded}
use eris_cli.Command.World.{World}
use eris_cli.Services.Group.{load_named}
use eris_cli.Tests.Daemon.{memory}
use eris_cli.Tests.Containers.{here}

abbrev pub app : Text
app = codes "app"

-- Like the app, without a chain.
abbrev pub web : Text
web = codes "web"

abbrev pub db : Text
db = codes "db"

-- A service that needs itself.
abbrev pub ring : Text
ring = codes "ring"

abbrev pub main_chain : Text
main_chain = codes "main"

abbrev pub needs_of : Text → Option Dependencies
needs_of name =
    if text_eq name app
    then some (record { chains = []; services = (db ++ codes ":store:l") ∷ [] })
    else if text_eq name web
    then some (record { chains = []; services = db ∷ [] })
    else if text_eq name ring
    then some (record { chains = []; services = ring ∷ [] })
    else none

abbrev pub chain_of : Text → Text
chain_of name = if text_eq name app then codes "main:chain:l" else []

abbrev pub define_service : Text → ServiceDefinition → ServiceDefinition
define_service name def = record def {
  name = name;
  chain = chain_of name;
  service = some (record blank_service { image = codes "eris/image" });
  dependencies = needs_of name;
}

abbrev pub is_file : Text → Text → Option Text
is_file typ name =
    if text_eq typ (codes "service")
    then (if text_eq name app
        then some name
        else if text_eq name web
        then some name
        else if text_eq name db
        then some name
        else if text_eq name ring
        then some name
        else none)
    else if text_eq name main_chain
    then some name
    else if text_eq name (codes "default")
    then some name
    else none

abbrev pub files : Viper
files = record {
  File = Text;
  read = is_file;
  into_service = λ file def. some (define_service file def);
  into_chain = λ file chain. some (record chain { chain_id = file });
  get_bool = λ key file. false;
}

abbrev pub nobody : Sources
nobody = record { git_user = none; links_supported = true; version = codes "0.11.2" }

abbrev pub world : World memory
world = record {
  viper = files;
  sources = nobody;
  env = here;
  head = record { content = none; writable = true };
  order = λ chains. chains;
  fuel = 5;
}

abbrev pub db_def : ServiceDefinition
db_def = record {
  name = db;
  service_id = [];
  chain = [];
  service = some (record blank_service { name = db; image = codes "eris/image" });
  dependencies = none;
  operations = record blank_operation {
    container_type = codes "service";
    container_number = pos 1;
    srv_container_name = codes "eris_service_db_1";
    data_container_name = codes "eris_data_db_1";
    labels = some (
        (codes "eris:ERIS", codes "true")
        ∷ (codes "eris:NAME", db)
        ∷ (codes "eris:TYPE", codes "service")
        ∷ (codes "eris:CONTAINER_NUMBER", codes "1")
        ∷ []);
  };
}

abbrev pub app_def : ServiceDefinition
app_def = record {
  name = app;
  service_id = [];
  chain = codes "main:chain:l";
  service = some (record blank_service {
    name = app;
    image = codes "eris/image";
    links = codes "eris_service_db_1:store" ∷ [];
  });
  dependencies = some (record { chains = []; services = db ∷ [] });
  operations = record blank_operation {
    container_type = codes "service";
    container_number = pos 1;
    srv_container_name = codes "eris_service_app_1";
    data_container_name = codes "eris_data_app_1";
    labels = some (
        (codes "eris:ERIS", codes "true")
        ∷ (codes "eris:NAME", app)
        ∷ (codes "eris:TYPE", codes "service")
        ∷ (codes "eris:CONTAINER_NUMBER", codes "1")
        ∷ []);
  };
}

abbrev pub ring_def : ServiceDefinition
ring_def = record {
  name = ring;
  service_id = [];
  chain = [];
  service = some (record blank_service {
    name = ring;
    image = codes "eris/image";
    links = codes "eris_service_ring_1:ring" ∷ [];
    volumes_from = codes "eris_service_ring_1:rw" ∷ [];
  });
  dependencies = some (record { chains = []; services = ring ∷ [] });
  operations = record blank_operation {
    container_type = codes "service";
    container_number = pos 1;
    srv_container_name = codes "eris_service_ring_1";
    data_container_name = codes "eris_data_ring_1";
    labels = some (
        (codes "eris:ERIS", codes "true")
        ∷ (codes "eris:NAME", ring)
        ∷ (codes "eris:TYPE", codes "service")
        ∷ (codes "eris:CONTAINER_NUMBER", codes "1")
        ∷ []);
  };
}

pub loads_ring : load_named memory files nobody [] (pos 1) ring ≡ loaded ring_def
unfolding load_named eris_cli.Loaders.Service.load_service_definition text_eq
    eris_cli.Loaders.Service.check_image eris_cli.Loaders.Connect.connect_to_a_service
    eris_cli.Dependency.parse_dependency eris_cli.Strings.split eris_cli.Names.containers_name
    eris_cli.Listing.find_service_container eris_cli.Strings.Decimal.itoa
    eris_cli.Listing.find_numbered eris_cli.Names.service_containers_name
    eris_cli.Names.service_to_data_container eris_cli.Labels.make_labels eris_cli.Dict.insert
loads_ring = refl

pub loads_db : load_named memory files nobody [] (pos 1) db ≡ loaded db_def
unfolding load_named eris_cli.Loaders.Service.load_service_definition text_eq
    eris_cli.Loaders.Service.check_image eris_cli.Listing.find_service_container
    eris_cli.Listing.find_numbered eris_cli.Names.service_containers_name
    eris_cli.Names.service_to_data_container eris_cli.Labels.make_labels
    eris_cli.Strings.Decimal.itoa eris_cli.Dict.insert
loads_db = refl

pub loads_app : load_named memory files nobody [] (pos 1) app ≡ loaded app_def
unfolding load_named eris_cli.Loaders.Service.load_service_definition text_eq
    eris_cli.Loaders.Service.check_image eris_cli.Loaders.Connect.connect_to_a_service
    eris_cli.Dependency.parse_dependency eris_cli.Strings.split eris_cli.Names.containers_name
    eris_cli.Listing.find_service_container eris_cli.Strings.Decimal.itoa
    eris_cli.Listing.find_numbered eris_cli.Names.service_containers_name
    eris_cli.Names.service_to_data_container eris_cli.Labels.make_labels eris_cli.Dict.insert
loads_app = refl
