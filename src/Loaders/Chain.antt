-- ===== src/Loaders/Chain.antt =====
-- loaders/chains.go: chains, and chains as services.
use eris_cli.Base.{Bool, true, ◌||◌, Option, none, some, [], ◌∷◌, ◌++◌, if◌then◌else◌}
use eris_cli.Base.Int.{ℤ}
use eris_cli.Strings.{Text, codes}
use eris_cli.Definitions.{Chain, blank_chain, ServiceDefinition}
use eris_cli.Docker.{DockerClient}
use eris_cli.Names.{type_chain, chain_containers_name, data_containers_name}
use eris_cli.Merge.Struct.{merge_service}
use eris_cli.Loaders.Outcome.{
  Outcome, loaded, refused, panicked, not_decoded, no_chain, Viper, Sources, ◌>>=◌,
}
use eris_cli.Loaders.Finalize.{service_finalize_load}
use eris_cli.Loaders.Service.{
  load_viper_config, connect_dependencies, choose_or_given, new_operation,
}

abbrev pub eris_chain_start : Text
eris_chain_start = codes "run"

unfoldable pub check_chain_names : Chain → Chain
check_chain_names chain = record chain {
  service = record chain.service { name = chain.name };
  operations = record chain.operations {
    srv_container_name = chain_containers_name chain.name chain.operations.container_number;
    data_container_name = data_containers_name chain.name chain.operations.container_number;
  };
}

module _ (D : DockerClient) (V : Viper) (sources : Sources) where
  open sources use {version}

  unfoldable pub set_chain_defaults : Chain → Outcome Chain
  unfolding load_viper_config
  set_chain_defaults chain = load_viper_config D V sources type_chain (codes "default") >>= λ file.
      elim (V.into_chain file chain) [ none ↦ refused not_decoded | some set ↦ loaded set ]

  -- Of the chain's own file: the service, the id and whether there is a data container.
  unfoldable pub marshal_chain_definition : V.File → Chain → Outcome Chain
  marshal_chain_definition file chain = elim (V.into_chain file blank_chain) [
    | none ↦ refused no_chain
    | some own ↦
        let service = merge_service chain.service own.service in
        let turned_on =
          V.get_bool (codes "data_container") file
          || V.get_bool (codes "service.data_container") file in
        loaded (record chain {
          chain_id = own.chain_id;
          service = if turned_on then record service { auto_data = true } else service;
        })
  ]

  -- Links and mounts of the chain's dependencies.
  unfoldable pub connect_chain : Chain → Chain
  unfolding connect_dependencies
  connect_chain chain =
      let (deps, linked) =
        connect_dependencies D V sources chain.operations chain.dependencies chain.service in
      record chain { dependencies = deps; service = linked }

  unfoldable pub load_chain_definition : D.State → Text → Bool → ℤ → Outcome Chain
  unfolding set_chain_defaults marshal_chain_definition connect_chain check_chain_names
      choose_or_given new_operation load_viper_config
  load_chain_definition s name new_cont number =
      set_chain_defaults (record blank_chain {
        name = name;
        operations =
            new_operation D V sources type_chain name
              (choose_or_given D V sources s type_chain new_cont number);
      })
      >>= λ chain. load_viper_config D V sources type_chain name >>= λ file.
          marshal_chain_definition file chain >>= λ chain.
          loaded (check_chain_names (connect_chain chain))

  -- The defaults again, whose error is dropped.
  unfoldable pub defaults_or_same : Chain → Chain
  unfolding set_chain_defaults
  defaults_or_same chain = elim (set_chain_defaults chain) [
    | loaded set ↦ set
    | refused e ↦ chain
    | panicked ↦ chain
  ]

  unfoldable pub service_def_from_chain : D.State → Chain → Text → Outcome ServiceDefinition
  unfolding defaults_or_same service_finalize_load
  service_def_from_chain s given cmd =
      let chain = defaults_or_same given in
      service_finalize_load D s (record {
        name = chain.name;
        service_id = chain.chain_id;
        chain = [];
        service = some (record chain.service {
          name = chain.name;
          image = codes "quay.io/eris/erisdb:" ++ version;
          auto_data = true;
          command = cmd;
        });
        dependencies = some (record { chains = []; services = codes "keys" ∷ [] });
        operations = chain.operations;
      })

  unfoldable pub as_chain : Text → ServiceDefinition → Outcome ServiceDefinition
  as_chain name def = elim def.service [
    | none ↦ panicked
    | some srv ↦ loaded (record def {
      service =
          some (record srv { environment = srv.environment ++ (codes "CHAIN_ID=" ++ name) ∷ [] });
      operations = record def.operations {
        srv_container_name = chain_containers_name name def.operations.container_number;
      };
    })
  ]

  unfoldable pub chains_as_a_service : D.State → Text → Bool → ℤ → Outcome ServiceDefinition
  unfolding load_chain_definition service_def_from_chain as_chain
  chains_as_a_service s name new_cont number =
      load_chain_definition s name new_cont number >>= λ chain.
      service_def_from_chain s chain eris_chain_start >>= λ def. as_chain name def

  -- Without a number the source reads the first entry of an empty slice.
  unfoldable pub mock_chain_definition : Text → Text → Option ℤ → Outcome Chain
  unfolding check_chain_names new_operation
  mock_chain_definition name id none = panicked
  mock_chain_definition name id (some number) = loaded (
      check_chain_names (record blank_chain {
        name = name;
        chain_id = id;
        service = record blank_chain.service { auto_data = true };
        operations = new_operation D V sources type_chain name number;
      }))
