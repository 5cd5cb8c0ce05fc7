-- ===== src/Chains/Load.antt =====
-- Whether a chain's container exists or runs (chains/load.go). What is found is written into the
-- chain's operation.
use eris_cli.Base.{Bool, true, false, none, some}
use eris_cli.Definitions.{Chain}
use eris_cli.Docker.{DockerClient}
use eris_cli.Listing.{find_chain_container}

module _ (D : DockerClient) (s : D.State) where
  unfoldable pub find_chain : Bool → Chain → Bool × Chain
  find_chain existing chain =
      elim (find_chain_container D s chain.name chain.operations.container_number existing) [
        | none ↦ (false, chain)
        | some c ↦ (
          true,
          record chain {
            operations = record chain.operations { srv_container_id = c.container_id };
          },
        )
      ]

  unfoldable pub is_chain_existing : Chain → Bool × Chain
  unfolding find_chain
  is_chain_existing chain = find_chain true chain

  unfoldable pub is_chain_running : Chain → Bool × Chain
  unfolding find_chain
  is_chain_running chain = find_chain false chain
