-- ===== src/Services/Started.antt =====
-- What starting a group of services does.
use eris_cli.Base.{
  ◌≡◌, ◌↔◌, ◌⊎◌, inl, inr, false, refl, ◌∙◌, ap, subst, false, Option, none, some, List, [], ◌∷◌,
  ◌++◌,
}
use eris_cli.Definitions.{Service, ServiceDefinition}
use eris_cli.Docker.{ApiContainer, DockerClient}
use eris_cli.Listing.{parse_containers}
use eris_cli.Perform.Action.{Error, Result, Session, ok, err, panics, blocks}
use eris_cli.Perform.Service.{docker_run_service}
use eris_cli.Perform.Started.{Launched, docker_run_service-Launched}
use eris_cli.Command.{
  Failure, Reply, returns, start_error, give, follow, result_reply, perform, Command, crash_command,
}
use eris_cli.Command.Steps.{follow-returns}
use eris_cli.Command.World.{World}
use eris_cli.Services.Operate.{start_one, start_group}

module _ (D : DockerClient) (w : World D) where
  open w use {env}

  -- Docker starts the service of the definition, from one state to the next.
  pub record Runs (def : ServiceDefinition) (s t : D.State) : Type 0 where
    pub srv : Service
    pub after : Session D
    pub service : def.service ≡ some srv
    pub ran :
        docker_run_service D env (record { daemon = s; srv = srv; ops = def.operations })
        ≡ (ok tt, after)
    pub left : after.daemon ≡ t

  -- The services start one after the other.
  pub data Starts : List ServiceDefinition → D.State → D.State → Type 0 where
    nothing : {s : D.State} → Starts [] s s
    next :
        {def : ServiceDefinition} {defs : List ServiceDefinition} {s t u : D.State}
        → Runs def s t
        → Starts defs t u
        → Starts (def ∷ defs) s u

  result_reply-ok :
      (wrap : Error → Failure) (r : Result (Unit {0})) (t u : D.State)
      → ◌≡◌ {A = Reply (Unit {0}) × D.State} (result_reply wrap r, u) (returns tt, t)
      → (r ≡ ok tt) × (u ≡ t)
  result_reply-ok wrap (ok v) t u h = (refl, ap (λ p. p.1) h)
  result_reply-ok wrap (err e) t u h = absurd (cc h)
  result_reply-ok wrap panics t u h = absurd (cc h)
  result_reply-ok wrap blocks t u h = absurd (cc h)

  pub start_one-Runs :
      (def : ServiceDefinition) (s t : D.State)
      → start_one D w def s ≡ (returns tt, t)
      → Runs def s t
  unfolding start_one perform crash_command
  start_one-Runs def s t h = by_service def.service refl h
    where
      by_service :
          (o : Option Service)
          → def.service ≡ o
          → (elim o as (λ _. Command D.State (Unit {0})) [
            | none ↦ crash_command
            | some srv ↦
                perform D (start_error def.name) (docker_run_service D env) srv def.operations
          ])
              s
            ≡ (returns tt, t)
          → Runs def s t
      by_service none e k = absurd (cc k)
      by_service (some srv) e k =
          let ran =
            docker_run_service D env (record { daemon = s; srv = srv; ops = def.operations }) in
          let (fine, left) = result_reply-ok (start_error def.name) ran.0 t ran.1.daemon k in
          record {
            srv = srv;
            after = ran.1;
            service = e;
            ran = ap (λ r. (r, ran.1)) fine;
            left = left;
          }

  Runs-start_one :
      (def : ServiceDefinition) (s t : D.State)
      → Runs def s t
      → start_one D w def s ≡ (returns tt, t)
  unfolding start_one perform
  Runs-start_one def s t r =
      rw (r.service, start_one)
        (ap (λ p. (result_reply (start_error def.name) p.0, p.1.daemon)) r.ran
          ∙ ap (λ d. (returns tt, d)) r.left)

  start_group-Starts :
      (group : List ServiceDefinition) (s t : D.State)
      → start_group D w group s ≡ (returns tt, t)
      → Starts group s t
  unfolding start_group give
  start_group-Starts [] s t h = subst (λ u. Starts [] s u) (ap (λ p. p.1) h) nothing
  start_group-Starts (def ∷ group) s t h =
      let first = start_one D w def s in
      let (u, e, rest) = follow-returns first.0 (λ _. start_group D w group) first.1 t tt h in
      next (start_one-Runs def s first.1 (ap (λ r. (r, first.1)) e))
        (start_group-Starts group first.1 t rest)

  Starts-start_group :
      (group : List ServiceDefinition) (s t : D.State)
      → Starts group s t
      → start_group D w group s ≡ (returns tt, t)
  unfolding start_group give
  Starts-start_group [] s t nothing = refl
  Starts-start_group (def ∷ group) s t (next {t = u} run rest) =
      ap (λ p. follow p.0 (λ _. start_group D w group) p.1) (Runs-start_one def s u run)
      ∙ Starts-start_group group u t rest

  -- Starting a group returns, and leaves a state, if and only if its services start one after the
  -- other, in the order of the group, and lead to that state.
  pub start_group_iff :
      (group : List ServiceDefinition) (s t : D.State)
      → (start_group D w group s ≡ (returns tt, t)) ↔ Starts group s t
  start_group_iff group s t = (start_group-Starts group s t, Starts-start_group group s t)

  -- A service's container: it was found running and nothing was changed, or it was launched, which left
  -- the state.
  abbrev pub RunsOrLaunched : ServiceDefinition → D.State → D.State → Type 0
  RunsOrLaunched def s t =
      ((c : ApiContainer) × (parse_containers D s def.operations.srv_container_name false ≡ some c)
        × (t ≡ s))
      ⊎ ((parse_containers D s def.operations.srv_container_name false ≡ none)
          × Launched D env def.operations.srv_container_name t)

  -- One service's turn while a group starts: those before it have started, its container runs or is
  -- launched, and those after it start.
  pub record Turn (before after : List ServiceDefinition) (def : ServiceDefinition) (s t : D.State)
      : Type 0 where
    pub from : D.State
    pub to : D.State
    pub started : Starts before s from
    pub runs : Runs def from to
    pub up : RunsOrLaunched def from to
    pub rest : Starts after to t

  Starts-split :
      (before after : List ServiceDefinition) (def : ServiceDefinition) (s t : D.State)
      → Starts (before ++ def ∷ after) s t
      → (u v : D.State) × Starts before s u × Runs def u v × Starts after v t
  Starts-split [] after def s t (next {t = v} run rest) = (s, v, nothing, run, rest)
  Starts-split (d ∷ before) after def s t (next {t = x} run rest) =
      let (u, v, first, one, last) = Starts-split before after def x t rest in
      (u, v, next run first, one, last)

  Runs-up :
      (def : ServiceDefinition) (s t : D.State)
      → def.operations.remove ≡ false
      → Runs def s t
      → RunsOrLaunched def s t
  Runs-up def s t kept r =
      let ran =
        docker_run_service-Launched D env (record { daemon = s; srv = r.srv; ops = def.operations })
          r.after kept r.ran in
      subst (λ u. RunsOrLaunched def s u) r.left
        (elim ran [
          | inl (c, running, same) ↦ inl (c, running, ap (λ u. u.daemon) same)
          | inr (idle, launched) ↦ inr (idle, launched)
        ])

  -- When a group has started, each of its services whose container is kept when it exits had its turn
  -- in the order of the group: those before it had started; then its container was found running and
  -- nothing changed, or it was there or created and the daemon accepted the start of it, which left the
  -- state from which those behind it started.
  pub start_group-Turn :
      (group before after : List ServiceDefinition) (def : ServiceDefinition) (s t : D.State)
      → start_group D w group s ≡ (returns tt, t)
      → group ≡ before ++ def ∷ after
      → def.operations.remove ≡ false
      → Turn before after def s t
  start_group-Turn group before after def s t h split kept =
      let (u, v, first, one, last) =
        Starts-split before after def s t
          (subst (λ g. Starts g s t) split (start_group-Starts group s t h)) in
      record {
        from = u;
        to = v;
        started = first;
        runs = one;
        up = Runs-up def u v kept one;
        rest = last;
      }
