-- ===== src/Command/World.antt =====
-- What a command reads besides the daemon.
use eris_cli.Base.{ℕ, List}
use eris_cli.Definitions.{ServiceDefinition}
use eris_cli.Docker.{DockerClient}
use eris_cli.Head.{HeadFile}
use eris_cli.Loaders.Outcome.{Viper, Sources}
use eris_cli.Perform.Action.{Env}

-- Definition files, surroundings, the HEAD file, the order in which Go iterates over the map of chains,
-- and the fuel of the recursion over dependencies.
pub record World (D : DockerClient) : Type 1 where
  pub viper : Viper
  pub sources : Sources
  pub env : Env D
  pub head : HeadFile
  pub order : List ServiceDefinition → List ServiceDefinition
  pub fuel : ℕ
