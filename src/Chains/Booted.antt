-- ===== src/Chains/Booted.antt =====
-- What starting a chain requires of its definition and of its dependencies.
use eris_cli.Base.{
  ◌≡◌, refl, sym, ap, subst, Bool, true, false, Bool-cases, inl, inr, some, List, [], ◌∷◌, All,
}
use eris_cli.Base.Int.{ℤ}
use eris_cli.Strings.{Text, codes}
use eris_cli.Definitions.{Chain, Dependencies}
use eris_cli.Definitions.Do.{Do}
use eris_cli.Docker.{DockerClient}
use eris_cli.Loaders.Outcome.{LoadError, loaded, refused}
use eris_cli.Command.{returns, give, fail, query, load}
use eris_cli.Command.Steps.{follow-returns, outcome_reply-returns}
use eris_cli.Command.World.{World}
use eris_cli.Command.Named.{on_named, forgetting}
use eris_cli.Chains.Load.{is_chain_running}
use eris_cli.Chains.Operate.{
  load_chain, start_chain, start_or_exec, start_or_exec_named, check_chains, boot_services,
  boot_dependencies,
}

module _ (D : DockerClient) (w : World D) where
  start_or_exec-unloadable :
      (asked : Do) (exec : Bool) (s : D.State) (e : LoadError)
      → load_chain D w asked.name asked.operations.container_number s ≡ refused e
      → start_or_exec D w asked exec s ≡ (returns (codes "no file"), s)
  unfolding start_or_exec start_or_exec_named forgetting query give
  start_or_exec-unloadable asked exec s e h = rw (h, start_or_exec, start_or_exec_named) refl

  -- A chain that does not load is not started, and this is not reported as an error.
  pub start_chain-unloadable :
      (asked : Do) (s : D.State) (e : LoadError)
      → load_chain D w asked.name asked.operations.container_number s ≡ refused e
      → start_chain D w asked s ≡ (returns (codes "no file"), s)
  unfolding start_chain
  start_chain-unloadable asked s e h = start_or_exec-unloadable asked false s e h

  -- The chain of the name loads, and its container runs.
  pub record IsUp (number : ℤ) (s : D.State) (name : Text) : Type 0 where
    pub chain : Chain
    pub loads : load_chain D w name number s ≡ loaded chain
    pub running : (is_chain_running D s chain).0 ≡ true

  check_chains-IsUp :
      (number : ℤ) (chain : Text) (names : List Text) (s t : D.State)
      → check_chains D w number chain names s ≡ (returns tt, t)
      → (s ≡ t) × All (IsUp number s) names
  unfolding check_chains give load query fail
  check_chains-IsUp number chain [] s t h = (ap (λ p. p.1) h, tt)
  check_chains-IsUp number chain (name ∷ names) s t h =
      let (c, e, rest) = follow-returns (load (load_chain D w name number) s).0 _ _ t tt h in
      elim (Bool-cases (is_chain_running D s c).0) [
        | inl up ↦
            let (same, ups) = check_chains-IsUp number chain names s t (rw up at rest) in
            (
              same,
              (
                record {
                  chain = c;
                  loads = outcome_reply-returns (load_chain D w name number s) c e;
                  running = up;
                },
                ups,
              ),
            )
        | inr down ↦ absurd (cc (rw down at rest))
      ]

  -- If the dependencies of a chain are booted, each chain that it depends on loads and runs in the
  -- state that is left, and the request has its name again.
  pub boot_dependencies-IsUp :
      (number : ℤ) (chain name left : Text) (deps : Dependencies) (s t : D.State)
      → boot_dependencies D w number chain (some deps) (name, s) ≡ (returns tt, (left, t))
      → All (IsUp number t) deps.chains × (left ≡ name)
  unfolding boot_dependencies query on_named
  boot_dependencies-IsUp number chain name left deps s t h =
      let first = boot_services D w number deps.services (name, s) in
      let (_, e, rest) = follow-returns first.0 _ first.1 (left, t) tt h in
      let checked = check_chains D w number chain deps.chains first.1.1 in
      let run : checked ≡ (returns tt, t) = λ i. ((rest i).0, (rest i).1.1) in
      let (same, ups) = check_chains-IsUp number chain deps.chains first.1.1 t run in
      (subst (λ u. All (IsUp number u) deps.chains) same ups, ap (λ p. p.1.0) (sym rest))
