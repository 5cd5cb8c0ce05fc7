-- ===== src/Contracts/Boot.antt =====
-- `bootChain` of contracts/operate.go.
use eris_cli.Base.{◌≡◌, ap, true, [], ◌∷◌, if◌then◌else◌}
use eris_cli.Strings.{Text, codes}
use eris_cli.Definitions.{Operation}
use eris_cli.Definitions.Do.{now_do}
use eris_cli.Docker.{DockerClient}
use eris_cli.Listing.{is_service_container}
use eris_cli.Loaders.Outcome.{LoadError, refused}
use eris_cli.Command.{Reply, returns, fails, crashes, waits, unending, Command, give, ◌>>◌}
use eris_cli.Command.World.{World}
use eris_cli.Services.Operate.{start_service}
use eris_cli.Chains.Operate.{load_chain, start_chain}
use eris_cli.Chains.Booted.{start_chain-unloadable}

module _ (D : DockerClient) (w : World D) where
  -- The fallback: the name may be a service.
  unfoldable pub boot_as_service : Text → Operation → Command D.State (Text × Operation)
  boot_as_service name ops s =
      let named = record ops { args = name ∷ [] } in
      if is_service_container D s name ops.container_number true
      then (do
        start_service D w (record now_do { operations = named })
        give (codes "service", named))
          s
      else (returns (codes "service", ops), s)

  -- What follows the start of the chain.
  unfoldable pub after_start : Text → Operation → Reply Text → Command D.State (Text × Operation)
  unfolding boot_as_service
  after_start name ops (returns _) t = (returns (codes "chain", ops), t)
  after_start name ops (fails _) t = boot_as_service name ops t
  after_start name ops crashes t = (crashes, t)
  after_start name ops waits t = (waits, t)
  after_start name ops unending t = (unending, t)

  -- The result is the chain's type, which the clean up reads, and the operation, into which the start of
  -- a service writes its argument.
  unfoldable pub boot_chain : Text → Operation → Command D.State (Text × Operation)
  unfolding after_start
  boot_chain name ops s =
      let (r, t) = start_chain D w (record now_do { name = name; operations = ops }) s in
      after_start name ops r t

  -- If the chain's definition does not load, booting it succeeds with the type of a chain and changes
  -- nothing; the service of that name is not tried.
  pub boot_chain-unloadable :
      (name : Text) (ops : Operation) (s : D.State) (e : LoadError)
      → load_chain D w name ops.container_number s ≡ refused e
      → boot_chain name ops s ≡ (returns (codes "chain", ops), s)
  unfolding boot_chain after_start
  boot_chain-unloadable name ops s e h =
      ap (λ p. after_start name ops p.0 p.1)
        (start_chain-unloadable D w (record now_do { name = name; operations = ops }) s e h)
