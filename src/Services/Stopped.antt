-- ===== src/Services/Stopped.antt =====
-- Where starting a group of services stops.
use eris_cli.Base.{◌≡◌, refl, ap, inl, inr, Option, none, some, List, [], ◌∷◌, ◌++◌}
use eris_cli.Definitions.{Service, ServiceDefinition}
use eris_cli.Docker.{DockerClient}
use eris_cli.Perform.Action.{Error, Result, Session, ok, err, panics, blocks}
use eris_cli.Perform.Service.{docker_run_service}
use eris_cli.Command.{
  Failure, Reply, fails, start_error, give, result_reply, perform, Command, crash_command,
}
use eris_cli.Command.Steps.{follow-fails}
use eris_cli.Command.World.{World}
use eris_cli.Services.Operate.{start_one, start_group}
use eris_cli.Services.Started.{Starts, next, nothing, start_one-Runs}

module _ (D : DockerClient) (w : World D) where
  open w use {env}

  -- Docker refuses to start the service of the definition.
  pub record Refuses (def : ServiceDefinition) (f : Failure) (s t : D.State) : Type 0 where
    pub srv : Service
    pub error : Error
    pub after : Session D
    pub service : def.service ≡ some srv
    pub ran :
        docker_run_service D env (record { daemon = s; srv = srv; ops = def.operations })
        ≡ (err error, after)
    pub failure : f ≡ start_error def.name error
    pub left : after.daemon ≡ t

  -- The services before one have started, and that one is refused.
  pub record Stops (group : List ServiceDefinition) (f : Failure) (s t : D.State) : Type 0 where
    pub before : List ServiceDefinition
    pub after : List ServiceDefinition
    pub def : ServiceDefinition
    pub at : D.State
    pub split : group ≡ before ++ def ∷ after
    pub started : Starts D w before s at
    pub refused : Refuses def f at t

  result_reply-err :
      (wrap : Error → Failure) (r : Result (Unit {0})) (f : Failure) (t u : D.State)
      → ◌≡◌ {A = Reply (Unit {0}) × D.State} (result_reply wrap r, u) (fails f, t)
      → (e : Error) × (r ≡ err e) × (f ≡ wrap e) × (u ≡ t)
  result_reply-err wrap (ok v) f t u h = absurd (cc h)
  result_reply-err wrap (err e) f t u h = (e, refl, cc h, ap (λ p. p.1) h)
  result_reply-err wrap panics f t u h = absurd (cc h)
  result_reply-err wrap blocks f t u h = absurd (cc h)

  start_one-Refuses :
      (def : ServiceDefinition) (f : Failure) (s t : D.State)
      → start_one D w def s ≡ (fails f, t)
      → Refuses def f s t
  unfolding start_one perform crash_command
  start_one-Refuses def f s t h = by_service def.service refl h
    where
      by_service :
          (o : Option Service)
          → def.service ≡ o
          → (elim o as (λ _. Command D.State (Unit {0})) [
            | none ↦ crash_command
            | some srv ↦
                perform D (start_error def.name) (docker_run_service D env) srv def.operations
          ])
              s
            ≡ (fails f, t)
          → Refuses def f s t
      by_service none e k = absurd (cc k)
      by_service (some srv) e k =
          let ran =
            docker_run_service D env (record { daemon = s; srv = srv; ops = def.operations }) in
          let (error, failed, same, left) =
            result_reply-err (start_error def.name) ran.0 f t ran.1.daemon k in
          record {
            srv = srv;
            error = error;
            after = ran.1;
            service = e;
            ran = ap (λ r. (r, ran.1)) failed;
            failure = same;
            left = left;
          }

  -- If starting a group fails, it stopped at one of its services: those before it have started, Docker
  -- refused to start that one, whose name and error are reported, and those after it were not tried.
  pub start_group-Stops :
      (group : List ServiceDefinition) (f : Failure) (s t : D.State)
      → start_group D w group s ≡ (fails f, t)
      → Stops group f s t
  unfolding start_group give
  start_group-Stops [] f s t h = absurd (cc h)
  start_group-Stops (def ∷ group) f s t h =
      let first = start_one D w def s in
      elim (follow-fails first.0 (λ _. start_group D w group) first.1 t f h) [
        | inl (u, e, rest) ↦
            let later = start_group-Stops group f first.1 t rest in
            record {
              before = def ∷ later.before;
              after = later.after;
              def = later.def;
              at = later.at;
              split = ap (λ g. def ∷ g) later.split;
              started =
                  next (start_one-Runs D w def s first.1 (ap (λ r. (r, first.1)) e)) later.started;
              refused = later.refused;
            }
        | inr (failed, same) ↦ record {
          before = [];
          after = group;
          def = def;
          at = s;
          split = refl;
          started = nothing;
          refused = start_one-Refuses def f s t (cc (failed, same));
        }
      ]
