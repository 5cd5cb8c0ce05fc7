-- ===== src/Services/Composed.antt =====
-- What `StartService` does as a whole.
use eris_cli.Base.{
  ◌≡◌, refl, sym, ◌∙◌, ap, subst, inl, inr, some, Option-cases, List, [], ◌∷◌, ◌++◌, map,
  append_assoc, append-nil,
}
use eris_cli.Base.Int.{ℤ}
use eris_cli.Strings.{Text, init, last_or}
use eris_cli.Definitions.{Operation, Service, ServiceDefinition}
use eris_cli.Definitions.Do.{Do}
use eris_cli.Docker.{DockerClient}
use eris_cli.Loaders.Outcome.{Outcome}
use eris_cli.Command.{returns, option_reply, load_fuelled, give, crash_command}
use eris_cli.Command.Steps.{option_reply-returns, follow-returns}
use eris_cli.Command.World.{World}
use eris_cli.Services.Group.{load_named, build_services_group}
use eris_cli.Services.Group.Ordered.{GroupOf, build_services_group-GroupOf}
use eris_cli.Services.Chains.{build_chain_group}
use eris_cli.Services.Chains.Linked.{ChainGroup, build_chain_group-ChainGroup}
use eris_cli.Services.Operate.{build_groups, start_with_top, merge_ops, start_service}
use eris_cli.Services.Started.{Starts, start_group_iff}

-- The groups of the names, one behind the other.
pub data Groups (load : Text → Outcome ServiceDefinition)
    : List Text → List ServiceDefinition → Type 0 where
  no_groups : Groups load [] []
  one_group :
      {name : Text} {names : List Text} {g gs : List ServiceDefinition}
      → GroupOf load name g
      → Groups load names gs
      → Groups load (name ∷ names) (g ++ gs)

last_or_any :
    (x y c : ServiceDefinition) (cs : List ServiceDefinition)
    → last_or x (c ∷ cs) ≡ last_or y (c ∷ cs)
last_or_any x y c [] = refl
last_or_any x y c (d ∷ cs) = last_or_any x y d cs

last_or_shift :
    (d e : ServiceDefinition) (ds : List ServiceDefinition) → last_or d (e ∷ ds) ≡ last_or e ds
last_or_shift d e [] = refl
last_or_shift d e (c ∷ ds) = last_or_any d e c ds

init-last :
    (d : ServiceDefinition) (ds : List ServiceDefinition)
    → d ∷ ds ≡ init (d ∷ ds) ++ last_or d ds ∷ []
init-last d [] = refl
init-last d (e ∷ ds) =
    ap (λ xs. d ∷ xs)
      (init-last e ds ∙ ap (λ x. init (e ∷ ds) ++ x ∷ []) (sym (last_or_shift d e ds)))

module _ (D : DockerClient) (w : World D) where
  open w use {viper, sources, fuel}

  build_groups-Groups :
      (names : List Text) (number : ℤ) (before out : List ServiceDefinition) (s t : D.State)
      → build_groups D w names number before s ≡ (returns out, t)
      → (s ≡ t)
        × ((gs : List ServiceDefinition) × (out ≡ before ++ gs)
            × Groups (load_named D viper sources s number) names gs)
  unfolding build_groups give load_fuelled
  build_groups-Groups [] number before out s t h =
      (ap (λ p. p.1) h, ([], sym (cc h) ∙ sym (append-nil before), no_groups))
  build_groups-Groups (name ∷ names) number before out s t h =
      let (g, e, rest) =
        follow-returns (option_reply (build_services_group D viper sources s number fuel name [])) _
          s t out h in
      let (same, (gs, shape, groups)) =
        build_groups-Groups names number (before ++ g) out s t rest in
      (
        same,
        (
          g ++ gs,
          shape ∙ append_assoc before g gs,
          one_group
              (build_services_group-GroupOf D viper sources s number fuel name g
                (option_reply-returns _ g e))
              groups,
        ),
      )

  -- The last definition of a group with the request's environment and links.
  abbrev pub with_extras : Do → Service → ServiceDefinition → ServiceDefinition
  with_extras asked srv top = record top {
    service = some (record srv {
      environment = srv.environment ++ asked.env;
      links = srv.links ++ asked.links;
    });
  }

  -- A group whose last definition was extended has started.
  pub record TopStarts (asked : Do) (all : List ServiceDefinition) (s t : D.State) : Type 0 where
    pub others : List ServiceDefinition
    pub top : ServiceDefinition
    pub srv : Service
    pub split : all ≡ others ++ top ∷ []
    pub service : top.service ≡ some srv
    pub starts : Starts D w (others ++ with_extras asked srv top ∷ []) s t

  start_with_top-TopStarts :
      (asked : Do) (all : List ServiceDefinition) (s t : D.State)
      → start_with_top D w asked all s ≡ (returns tt, t)
      → TopStarts asked all s t
  unfolding start_with_top crash_command
  start_with_top-TopStarts asked [] s t h = absurd (cc h)
  start_with_top-TopStarts asked (def ∷ defs) s t h =
      elim (Option-cases (last_or def defs).service) [
        | inl missing ↦ absurd (cc (rw (missing, start_with_top) at h))
        | inr (srv, found) ↦ record {
          others = init (def ∷ defs);
          top = last_or def defs;
          srv = srv;
          split = init-last def defs;
          service = found;
          starts = (start_group_iff D w _ s t).0 (rw (found, start_with_top) at h);
        }
      ]

  -- The request's arguments with its further services, and its operation with them.
  abbrev pub all_args : Do → List Text
  all_args asked = asked.operations.args ++ asked.services_slice

  abbrev pub all_ops : Do → Operation
  all_ops asked = record asked.operations { args = all_args asked }

  -- What a start of services has done.
  pub record ServiceStarts (asked : Do) (s t : D.State) : Type 0 where
    pub services : List ServiceDefinition
    pub all : List ServiceDefinition
    pub groups :
        Groups
          (load_named D viper sources s asked.operations.container_number)
          (all_args asked)
          services
    pub chained :
        ChainGroup D w asked.chain_name s (map (merge_ops D w (all_ops asked)) services) all
    pub started : TopStarts asked all s t

  -- If starting services returns, the groups of all that was asked for were built, each service behind
  -- what it needs; the request was merged into their operations; the chains were added before them
  -- and linked; the last service got the request's environment and links; and all of these started
  -- one after the other.
  pub start_service-ServiceStarts :
      (asked : Do) (s t : D.State)
      → start_service D w asked s ≡ (returns tt, t)
      → ServiceStarts asked s t
  unfolding start_service
  start_service-ServiceStarts asked s t h =
      let number = asked.operations.container_number in
      let first = build_groups D w (all_args asked) number [] s in
      let (services, e, rest) = follow-returns first.0 _ first.1 t tt h in
      let (same, (gs, shape, groups)) =
        build_groups-Groups (all_args asked) number [] services s first.1
          (ap (λ r. (r, first.1)) e) in
      let merged = map (merge_ops D w (all_ops asked)) services in
      let second = build_chain_group D w asked.chain_name merged first.1 in
      let (all, e', last) = follow-returns second.0 _ second.1 t tt rest in
      let (still, chained) =
        build_chain_group-ChainGroup D w asked.chain_name first.1 merged all second.1
          (ap (λ r. (r, second.1)) e') in
      record {
        services = services;
        all = all;
        groups =
            subst (Groups (load_named D viper sources s number) (all_args asked)) (sym shape)
              groups;
        chained = subst (λ u. ChainGroup D w asked.chain_name u merged all) (sym same) chained;
        started =
            subst (λ u. TopStarts asked all u t) (sym (same ∙ still))
              (start_with_top-TopStarts asked all second.1 t last);
      }
