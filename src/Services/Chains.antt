-- ===== src/Services/Chains.antt =====
-- The chains of a group of services: `ConnectChainToService` and `BuildChainGroup` of
-- services/operate.go.
pub mod Names
pub mod Linked
use eris_cli.Base.{false, not, Option, none, some, List, [], ◌∷◌, ◌++◌, if◌then◌else◌}
use eris_cli.Strings.{Text, codes, text_eq, has_prefix}
use eris_cli.Definitions.{Service, ServiceDefinition}
use eris_cli.Docker.{DockerClient}
use eris_cli.Dependency.{parse_dependency}
use eris_cli.Head.{get_head}
use eris_cli.Loaders.Connect.{connect_to_a_chain}
use eris_cli.Loaders.Chain.{chains_as_a_service}
use eris_cli.Command.{chain_not_given, Command, give, fail, crash_command, load, ◌>>=◌}
use eris_cli.Command.World.{World}

-- `if _, ok := chains[s.Name]; !ok { chains[s.Name] = s }`
unfoldable pub add_chain : ServiceDefinition → List ServiceDefinition → List ServiceDefinition
add_chain chain [] = chain ∷ []
add_chain chain (c ∷ cs) = if text_eq c.name chain.name then c ∷ cs else c ∷ add_chain chain cs

module _ (D : DockerClient) (w : World D) where
  open w use {viper, sources, env, head, order, fuel}

  -- The chain's name, by the flag, the HEAD file or the definition.
  unfoldable pub choose_chain : Text → Text → Text → Option Text
  choose_chain flag chain name =
      if not (text_eq flag [])
      then some flag
      else if has_prefix chain (codes "$chain")
      then get_head head
      else some name

  -- The chain, and the service linked to it.
  unfoldable pub connect_chain_to_service :
      Text → ServiceDefinition → Service → Command D.State (ServiceDefinition × Service)
  connect_chain_to_service flag def srv =
      let dep = parse_dependency def.chain in
      elim (choose_chain flag def.chain dep.name) [
        | none ↦ fail chain_not_given
        | some name ↦ do
          chain ← load (λ s.
              chains_as_a_service D viper sources s name false def.operations.container_number)
          give (
            chain,
            connect_to_a_chain def.operations.container_number (record dep { name = name }) srv,
          )
      ]

  -- One round of the loop over the services.
  unfoldable pub connect_one :
      Text
      → List ServiceDefinition
      → ServiceDefinition
      → Command D.State (List ServiceDefinition × ServiceDefinition)
  unfolding connect_chain_to_service add_chain
  connect_one flag chains def =
      if text_eq def.chain [] then give (chains, def) else elim def.service [
        | none ↦ crash_command
        | some srv ↦ do
          (chain, linked) ← connect_chain_to_service flag def srv
          give (add_chain chain chains, record def { service = some linked })
      ]

  -- The chains, and the services with their links.
  unfoldable pub connect_chains :
      Text
      → List ServiceDefinition
      → List ServiceDefinition
      → Command D.State (List ServiceDefinition × List ServiceDefinition)
  unfolding connect_one
  connect_chains flag chains [] = give (chains, [])
  connect_chains flag chains (def ∷ defs) = do
    (more, connected) ← connect_one flag chains def
    (all, rest) ← connect_chains flag more defs
    give (all, connected ∷ rest)

  unfoldable pub build_chain_group :
      Text → List ServiceDefinition → Command D.State (List ServiceDefinition)
  unfolding connect_chains
  build_chain_group flag services = do
    (chains, connected) ← connect_chains flag [] services
    give (order chains ++ connected)
