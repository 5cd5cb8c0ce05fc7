-- ===== src/Perform/Cleanup.antt =====
-- What `DockerRunData` and `DockerExecData` leave behind.
use eris_cli.Base.{◌≡◌, refl, Bool-cases, inl, inr, ◌≢◌, true, false, Option, ap, sym, ◌∙◌}
use eris_cli.Strings.{Text}
use eris_cli.Definitions.{Operation, Service}
use eris_cli.Docker.{CreateOptions, DockerClient, Container, DockerError, Answer, done, failed}
use eris_cli.Configure.{configure_volumes_from_container}
use eris_cli.Perform.Action.{
  Env, Session, Result, ok, err, panics, blocks, Exec, get_ops, call, returned, never_ends,
}
use eris_cli.Perform.Calls.{
  create_container, remove_container, with_removal, after_removal, start_interactive_container,
}
use eris_cli.Perform.Promises.{ForgetsRemoved}
use eris_cli.Perform.Steps.{continue-ok}
use eris_cli.Perform.Data.{docker_run_data, docker_exec_data, run_and_log}

module _ (D : DockerClient) (env : Env D) where
  open env use {container_root, on_circle}

  -- The removal of the container that the deferred function makes, from the daemon `d`.
  abbrev removal : Text → D.State → Answer (Unit {0}) × D.State
  removal name d = D.remove_container (record { id = name; remove_volumes = true; force = false }) d

  -- The options of the container that is made for the occasion.
  abbrev exec_options : Option Service → Operation → CreateOptions
  exec_options service ops = configure_volumes_from_container container_root ops service

  with_removal-step :
      {A : Type 0} (name : Text) (body : Exec D A) (s : Session D)
      → never_ends (body s).0 ≡ false
      → with_removal D env name body s ≡ (
        after_removal D env (body s).0 (returned D (removal name (body s).1.daemon).0),
        record (body s).1 { daemon = (removal name (body s).1.daemon).1 },
      )
  unfolding with_removal remove_container call
  with_removal-step name body s h = rw h refl

  with_removal-removes :
      {A : Type 0} (name : Text) (body : Exec D A) (s : Session D)
      → never_ends (body s).0 ≡ false
      → (with_removal D env name body s).1.daemon ≡ (removal name (body s).1.daemon).1
  with_removal-removes name body s h = ap (λ p. p.1.daemon) (with_removal-step name body s h)

  with_removal-result :
      {A : Type 0} (name : Text) (body : Exec D A) (s t : Session D) (a : A)
      → never_ends (body s).0 ≡ false
      → with_removal D env name body s ≡ (ok a, t)
      → after_removal D env (body s).0 (returned D (removal name (body s).1.daemon).0) ≡ ok a
  with_removal-result name body s t a ended h =
      ap (λ p. p.0) (sym (with_removal-step name body s ended) ∙ h)

  never_ends-blocks : {A : Type 0} (r : Result A) → never_ends r ≡ true → r ≡ blocks
  never_ends-blocks (ok a) h = cc
  never_ends-blocks (err e) h = cc
  never_ends-blocks panics h = cc
  never_ends-blocks blocks h = refl

  ends :
      {A : Type 0} (name : Text) (body : Exec D A) (s : Session D)
      → (with_removal D env name body s).0 ≢ blocks
      → never_ends (body s).0 ≡ false
  unfolding with_removal
  ends name body s h = elim (Bool-cases (never_ends (body s).0)) [
    | inl never ↦ absurd (h (rw never (never_ends-blocks (body s).0 never)))
    | inr e ↦ e
  ]

  after_removal-ok :
      {A : Type 0} (r : Result A) (answer : Answer (Unit {0})) (a : A)
      → on_circle ≡ false
      → after_removal D env r (returned D answer) ≡ ok a
      → answer ≡ done tt
  unfolding after_removal
  after_removal-ok r (done u) a out h = refl
  after_removal-ok (ok b) (failed e) a out h = absurd (cc (out, h))
  after_removal-ok (err f) (failed e) a out h = absurd (cc (out, h))
  after_removal-ok panics (failed e) a out h = absurd (cc h)
  after_removal-ok blocks (failed e) a out h = absurd (cc h)

  -- The last call to the daemon removed the container.
  pub record Removed (name : Text) (t : D.State) : Type 0 where
    pub before : D.State
    pub removed : t ≡ (removal name before).1

  with_removal-forgets :
      {A : Type 0} (name : Text) (body : Exec D A) (s t : Session D) (a : A)
      → ForgetsRemoved D
      → on_circle ≡ false
      → with_removal D env name body s ≡ (ok a, t)
      → (e : DockerError) × (D.inspect_container name t.daemon ≡ failed e)
  with_removal-forgets name body s t a forgets out h =
      let ended = ends name body s (λ never. absurd (cc (never, h))) in
      let d = (body s).1.daemon in
      let answered : (removal name d).0 ≡ done tt =
        after_removal-ok (body s).0 (removal name d).0 a out
          (with_removal-result name body s t a ended h) in
      let (e, gone) =
        forgets (record { id = name; remove_volumes = true; force = false }) d answered in
      (
        e,
        ap (D.inspect_container name)
              (sym (ap (λ p. p.1.daemon) h) ∙ with_removal-removes name body s ended)
            ∙ gone,
      )

  docker_exec_data-step :
      (service : Option Service) (s t : Session D) (c : Container)
      → create_container D env (exec_options service s.ops) s ≡ (ok c, t)
      → docker_exec_data D env service s
        ≡ with_removal D env
            (exec_options service s.ops).name
            (start_interactive_container D env (exec_options service s.ops))
            t
  unfolding docker_exec_data get_ops
  docker_exec_data-step service s t c created = rw created refl

  -- Once the container of an interactive command was created, the last call to the daemon is its
  -- removal, whatever the command's outcome, unless attaching to it never returns.
  pub docker_exec_data-removes :
      (service : Option Service) (s t : Session D) (c : Container)
      → create_container D env (exec_options service s.ops) s ≡ (ok c, t)
      → (docker_exec_data D env service s).0 ≢ blocks
      → Removed (exec_options service s.ops).name (docker_exec_data D env service s).1.daemon
  docker_exec_data-removes service s t c created ended =
      let name = (exec_options service s.ops).name in
      let body = start_interactive_container D env (exec_options service s.ops) in
      let step = docker_exec_data-step service s t c created in
      record {
        before = (body t).1.daemon;
        removed =
            ap (λ p. p.1.daemon) step
            ∙ with_removal-removes name body t
                (ends name body t (λ never. ended (ap (λ p. p.0) step ∙ never)));
      }

  -- When a command on a data container has succeeded, the container that was made for it is gone:
  -- the daemon forgets what it says it removed, and the program does not run on the build server.
  pub docker_run_data-forgets :
      (service : Option Service) (s t : Session D) (output : Option Text)
      → ForgetsRemoved D
      → on_circle ≡ false
      → docker_run_data D env service s ≡ (ok output, t)
      → (e : DockerError) × (D.inspect_container (exec_options service s.ops).name t.daemon
          ≡ failed e)
  unfolding docker_run_data get_ops
  docker_run_data-forgets service s t output forgets out h =
      let opts = exec_options service s.ops in
      let (_, _, g) =
        continue-ok (create_container D env opts s).0 _ (create_container D env opts s).1 t output
          h in
      with_removal-forgets opts.name (run_and_log D env opts) _ t output forgets out g
