-- ===== src/Services/Chains/Linked.antt =====
-- What connecting the chains to a group of services does.
use eris_cli.Base.{
  ◌≡◌, ◌≢◌, sym, ◌∙◌, ap, subst, inl, inr, false, Bool-cases, some, Option-cases, List, [], ◌∷◌,
  ◌++◌,
}
use eris_cli.Strings.{Text, text_eq}
use eris_cli.Strings.Laws.{text_eq_iff}
use eris_cli.Definitions.{Service, ServiceDefinition}
use eris_cli.Docker.{DockerClient}
use eris_cli.Dependency.{parse_dependency}
use eris_cli.Loaders.Outcome.{loaded}
use eris_cli.Loaders.Connect.{connect_to_a_chain}
use eris_cli.Loaders.Chain.{chains_as_a_service}
use eris_cli.Command.{returns, give, fail, load, crash_command}
use eris_cli.Command.Steps.{follow-returns, outcome_reply-returns}
use eris_cli.Services.Chains.Names.{
  HasName, IsDistinct, add_chain-HasName, add_chain-keeps, add_chain-IsDistinct,
}
use eris_cli.Command.World.{World}
use eris_cli.Services.Chains.{
  choose_chain, connect_chain_to_service, add_chain, connect_one, connect_chains, build_chain_group,
}

module _ (D : DockerClient) (w : World D) (flag : Text) (s : D.State) where
  open w use {viper, sources, order}

  -- A service that asks for no chain stays; any other is linked to the chain of the flag, of the HEAD
  -- file or of its definition, which loads and is among the chains.
  pub data Linked (chains : List ServiceDefinition) (def : ServiceDefinition)
      : ServiceDefinition → Type 0 where
    alone : def.chain ≡ [] → Linked chains def def
    linked :
        (srv : Service) (name : Text) (chain : ServiceDefinition)
        → def.chain ≢ []
        → def.service ≡ some srv
        → choose_chain D w flag def.chain (parse_dependency def.chain).name ≡ some name
        → chains_as_a_service D viper sources s name false def.operations.container_number
          ≡ loaded chain
        → HasName chain.name chains
        → Linked chains def (record def {
          service = some (
              connect_to_a_chain def.operations.container_number
                (record (parse_dependency def.chain) { name = name })
                srv);
        })

  -- The services, one by one.
  pub data AllLinked (chains : List ServiceDefinition)
      : List ServiceDefinition → List ServiceDefinition → Type 0 where
    none_left : AllLinked chains [] []
    one_linked :
        {def out : ServiceDefinition} {defs outs : List ServiceDefinition}
        → Linked chains def out
        → AllLinked chains defs outs
        → AllLinked chains (def ∷ defs) (out ∷ outs)

  Linked-more :
      (chains more : List ServiceDefinition) (def out : ServiceDefinition)
      → ((name : Text) → HasName name chains → HasName name more)
      → Linked chains def out
      → Linked more def out
  Linked-more chains more def out grow (alone e) = alone e
  Linked-more chains more def out grow (linked srv name chain e found chosen loads placed) =
      linked srv name chain e found chosen loads (grow chain.name placed)

  -- What a returned connection has done.
  record Connection (def : ServiceDefinition) (srv : Service) (chain : ServiceDefinition)
      (out : Service) : Type 0 where
    name : Text
    chosen : choose_chain D w flag def.chain (parse_dependency def.chain).name ≡ some name
    loads :
        chains_as_a_service D viper sources s name false def.operations.container_number
        ≡ loaded chain
    made :
        out
        ≡ connect_to_a_chain def.operations.container_number
            (record (parse_dependency def.chain) { name = name })
            srv

  connect_chain_to_service-Connection :
      (def : ServiceDefinition) (srv : Service) (chain : ServiceDefinition) (out : Service)
      (t : D.State)
      → connect_chain_to_service D w flag def srv s ≡ (returns (chain, out), t)
      → (s ≡ t) × Connection def srv chain out
  unfolding connect_chain_to_service fail load give
  connect_chain_to_service-Connection def srv chain out t h =
      elim (Option-cases (choose_chain D w flag def.chain (parse_dependency def.chain).name)) [
        | inl e ↦ absurd (cc (rw (e, connect_chain_to_service) at h))
        | inr (name, e) ↦
            (let k = rw (e, connect_chain_to_service) at h in
              let (c, found, rest) = follow-returns _ _ s t (chain, out) k in
              let same : c ≡ chain = cc rest in
              (
                ap (λ p. p.1) rest,
                record {
                  name = name;
                  chosen = e;
                  loads = outcome_reply-returns _ c found ∙ ap loaded same;
                  made = cc rest;
                },
              ))
      ]

  -- What a round of the loop has done.
  record Round (chains : List ServiceDefinition) (def : ServiceDefinition)
      (more : List ServiceDefinition) (out : ServiceDefinition) : Type 0 where
    grows : (name : Text) → HasName name chains → HasName name more
    distinct : IsDistinct chains → IsDistinct more
    links : Linked more def out

  connect_one-Round :
      (chains more : List ServiceDefinition) (def out : ServiceDefinition) (t : D.State)
      → connect_one D w flag chains def s ≡ (returns (more, out), t)
      → (s ≡ t) × Round chains def more out
  unfolding connect_one give crash_command
  connect_one-Round chains more def out t h = elim (Bool-cases (text_eq def.chain [])) [
    | inl unasked ↦
        let k = rw (unasked, connect_one) at h in
        let same : chains ≡ more = cc k in
        let kept : def ≡ out = cc k in
        (
          ap (λ p. p.1) k,
          record {
            grows = λ name. subst (HasName name) same;
            distinct = subst IsDistinct same;
            links = subst (Linked more def) kept (alone ((text_eq_iff def.chain []).0 unasked));
          },
        )
    | inr asked ↦ elim (Option-cases def.service) [
      | inl missing ↦ absurd (cc (rw (asked, missing, connect_one) at h))
      | inr (srv, found) ↦
          let k = rw (asked, found, connect_one) at h in
          let ((chain, made), e, rest) =
            follow-returns (connect_chain_to_service D w flag def srv s).0 _
              (connect_chain_to_service D w flag def srv s).1 t (more, out) k in
          let (same, c) =
            connect_chain_to_service-Connection def srv chain made _
              (ap (λ r. (r, (connect_chain_to_service D w flag def srv s).1)) e) in
          let all : add_chain chain chains ≡ more = cc rest in
          let last : record def { service = some made } ≡ out = cc rest in
          let asks : def.chain ≢ [] =
            λ none_asked. cc (asked, (text_eq_iff def.chain []).1 none_asked) in
          (
            same ∙ ap (λ p. p.1) rest,
            record {
              grows = λ name k. subst (HasName name) all (add_chain-keeps name chain chains k);
              distinct = λ k. subst IsDistinct all (add_chain-IsDistinct chain chains k);
              links =
                  subst (Linked more def)
                    (ap (λ m. record def { service = some m }) (sym c.made) ∙ last)
                    (linked srv c.name chain asks found c.chosen c.loads
                      (subst (HasName chain.name) all (add_chain-HasName chain chains)));
            },
          )
    ]
  ]

  -- What the loop has done.
  record Rounds (chains defs all outs : List ServiceDefinition) : Type 0 where
    grows : (name : Text) → HasName name chains → HasName name all
    distinct : IsDistinct chains → IsDistinct all
    links : AllLinked all defs outs

  connect_chains-Rounds :
      (chains defs all outs : List ServiceDefinition) (t : D.State)
      → connect_chains D w flag chains defs s ≡ (returns (all, outs), t)
      → (s ≡ t) × Rounds chains defs all outs
  unfolding connect_chains give
  connect_chains-Rounds chains [] all outs t h =
      let same : chains ≡ all = cc h in
      let empty : [] ≡ outs = cc h in
      (
        ap (λ p. p.1) h,
        record {
          grows = λ name. subst (HasName name) same;
          distinct = subst IsDistinct same;
          links = subst (AllLinked all []) empty none_left;
        },
      )
  connect_chains-Rounds chains (def ∷ defs) all outs t h =
      let first = connect_one D w flag chains def s in
      let ((more, out), e, later) = follow-returns first.0 _ first.1 t (all, outs) h in
      let (same, round) =
        connect_one-Round chains more def out first.1 (ap (λ r. (r, first.1)) e) in
      let second = connect_chains D w flag more defs first.1 in
      let ((every, rest), e', last) = follow-returns second.0 _ second.1 t (all, outs) later in
      let (still, rounds) = connect_chains-Rounds more defs every rest second.1 (
        subst (λ u. connect_chains D w flag more defs u ≡ (returns (every, rest), second.1))
          (sym same) (ap (λ r. (r, second.1)) e')) in
      let all_same : every ≡ all = cc last in
      let outs_same : out ∷ rest ≡ outs = cc last in
      (
        still ∙ ap (λ p. p.1) last,
        subst (λ o. Rounds chains (def ∷ defs) all o) outs_same
            (subst (λ a. Rounds chains (def ∷ defs) a (out ∷ rest)) all_same
              (record {
                grows = λ name k. rounds.grows name (round.grows name k);
                distinct = λ k. rounds.distinct (round.distinct k);
                links =
                    one_linked (Linked-more more every def out rounds.grows round.links)
                      rounds.links;
              })),
      )

  -- What building the chain group has done.
  pub record ChainGroup (services all : List ServiceDefinition) : Type 0 where
    pub chains : List ServiceDefinition
    pub connected : List ServiceDefinition
    pub distinct : IsDistinct chains
    pub links : AllLinked chains services connected
    pub shape : all ≡ order chains ++ connected

  -- If the chains of a group can be added, the result has the chains first, no two of one name, in
  -- the order in which Go goes through its map, and then the services in their order, each linked to
  -- its chain, which is among those; the daemon is only read.
  pub build_chain_group-ChainGroup :
      (services all : List ServiceDefinition) (t : D.State)
      → build_chain_group D w flag services s ≡ (returns all, t)
      → (s ≡ t) × ChainGroup services all
  unfolding build_chain_group give
  build_chain_group-ChainGroup services all t h =
      let first = connect_chains D w flag [] services s in
      let ((chains, connected), e, rest) = follow-returns first.0 _ first.1 t all h in
      let (same, rounds) =
        connect_chains-Rounds [] services chains connected first.1 (ap (λ r. (r, first.1)) e) in
      (
        same ∙ ap (λ p. p.1) rest,
        record {
          chains = chains;
          connected = connected;
          distinct = rounds.distinct tt;
          links = rounds.links;
          shape = cc rest;
        },
      )
