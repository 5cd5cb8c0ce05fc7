-- ===== src/Chains/Ports.antt =====
-- `PortsService` of services/manage.go and `PortsChain` of chains/manage.go. The ports of a container
-- that the daemon describes are a parameter.
use eris_cli.Base.{false, none, some, List, [], if◌then◌else◌}
use eris_cli.Strings.{Text}
use eris_cli.Definitions.Do.{Do}
use eris_cli.Docker.{Container, DockerClient, done, failed}
use eris_cli.Listing.Ports.{Exposed, port_mappings}
use eris_cli.Loaders.Service.{load_service_definition}
use eris_cli.Perform.Action.{docker}
use eris_cli.Command.{
  returns, fails, perform_error, Command, give, crash_command, load, query, ◌>>=◌,
}
use eris_cli.Command.World.{World}
use eris_cli.Services.{is_service_existing}
use eris_cli.Chains.Load.{is_chain_existing}
use eris_cli.Chains.Operate.{load_chain}

module _ (D : DockerClient) (w : World D) (exposed_ports : Container → Exposed) where
  -- The lines that are printed for a container.
  unfoldable pub print_port_mappings : Text → List Text → Command D.State (List Text)
  print_port_mappings id ports s = elim (D.inspect_container id s) [
    | failed e ↦ (fails (perform_error (docker e)), s)
    | done c ↦ (returns (port_mappings (exposed_ports c) ports), s)
  ]

  unfoldable pub ports_service : Do → Command D.State (List Text)
  unfolding print_port_mappings
  ports_service asked = do
    def ← load (λ s.
        load_service_definition D w.viper w.sources s asked.name false
          asked.operations.container_number)
    elim def.service [
      | none ↦ crash_command
      | some srv ↦ do
        (existing, ops) ← query (λ s. is_service_existing D s srv def.operations)
        let print = print_port_mappings ops.srv_container_id asked.operations.args
        if existing then print else give []
    ]

  unfoldable pub ports_chain : Do → Command D.State (List Text)
  unfolding print_port_mappings
  ports_chain asked = do
    found ← load (load_chain D w asked.name asked.operations.container_number)
    (existing, chain) ← query (λ s. is_chain_existing D s found)
    let print = print_port_mappings chain.operations.srv_container_id asked.operations.args
    if existing then print else give []
