-- ===== src/Perform/Started.antt =====
-- How a service came to run that was started.
use eris_cli.Base.{
  ◌≡◌, refl, Bool, true, false, none, some, Option, arith, if◌then◌else◌, sym, ◌∙◌, ap,
  Option-cases, inl, inr, ◌⊎◌, subst,
}
use eris_cli.Strings.{Text}
use eris_cli.Definitions.{Operation}
use eris_cli.Docker.{ApiContainer, DockerClient, done, HostConfig, CreateOptions}
use eris_cli.Listing.{parse_containers}
use eris_cli.Configure.{
  Configured, data_image, options, zero_options, panic, numbered, configure_service_container,
}
use eris_cli.Configure.Service.Ports.{configure_service_container-name}
use eris_cli.Perform.Action.{
  Env, Session, ok, Exec, pure, ◌>>◌, get_srv, get_ops, set_srv, set_ops, call, crash,
}
use eris_cli.Perform.Calls.{
  find_existing, create_zero, find_running, start_container, remove_container, fix_volumes,
}
use eris_cli.Perform.Service.{
  docker_run_service, run_configured, run_zero, ensure_created, setup_data_if, share_volumes,
}
use eris_cli.Perform.Present.{Created, IsPresent, ensure_created-Present}
use eris_cli.Perform.Steps.{continue-ok, returned-done, KeepsOps, Returns, bind-Returns}
use eris_cli.Perform.Keeps.{
  fix_volumes-KeepsOps, ensure_created-KeepsOps, setup_data_if-KeepsOps, setup_data_if-Returns,
  share_volumes-name,
}

module _ (D : DockerClient) (env : Env D) where
  -- A container of the name was started and the state left. It was there when it was started, or its
  -- creation was what came before.
  pub record Launched (name : Text) (t : D.State) : Type 0 where
    pub options : CreateOptions
    pub named : options.name ≡ name
    pub before : D.State
    pub there : IsPresent D name before ⊎ Created D options before
    pub accepted : D.start_container name options.host_config before ≡ (done tt, t)

  start_container-KeepsOps :
      (name : Text) (host : HostConfig) → KeepsOps (start_container D env name host)
  unfolding start_container call
  start_container-KeepsOps name host s = refl

  not_removed :
      (removes : Bool) (name : Text) (s t : Session D)
      → removes ≡ false
      → (if removes then remove_container D env name false else pure D tt) s ≡ (ok tt, t)
      → t ≡ s
  not_removed true name s t h k = absurd (cc h)
  not_removed false name s t h k = unfold pure in ap (λ p. p.1) (sym k)

  start_container-accepted :
      (name : Text) (host : HostConfig) (s : Session D) (u : Unit {0})
      → (start_container D env name host s).0 ≡ ok u
      → D.start_container name host s.daemon
        ≡ (done tt, (start_container D env name host s).1.daemon)
  unfolding start_container call
  start_container-accepted name host s u h =
      ap (λ a. (a, (D.start_container name host s.daemon).1)) (returned-done D _ u h)

  -- The end of `DockerRunService`.
  kept-Launched :
      (name : Text) (opts : CreateOptions) (s r u t : Session D)
      → u.ops ≡ s.ops
      → s.ops.remove ≡ false
      → opts.name ≡ name
      → IsPresent D name r.daemon ⊎ Created D opts r.daemon
      → D.start_container opts.name opts.host_config r.daemon ≡ (done tt, u.daemon)
      → (if u.ops.remove then remove_container D env opts.name false else pure D tt) u ≡ (ok tt, t)
      → Launched name t.daemon
  kept-Launched name opts s r u t same kept e there h k =
      rw (not_removed u.ops.remove opts.name u t (ap (λ o. o.remove) same ∙ kept) k) (record {
        options = opts;
        named = e;
        before = r.daemon;
        there = there;
        accepted =
            subst (λ n. D.start_container n opts.host_config r.daemon ≡ (done tt, u.daemon)) e h;
      })

  run_configured-Launched :
      (opts : CreateOptions) (s t : Session D)
      → s.ops.remove ≡ false
      → opts.name ≡ s.ops.srv_container_name
      → run_configured D env opts s ≡ (ok tt, t)
      → Launched s.ops.srv_container_name t.daemon
  unfolding run_configured get_srv get_ops
  run_configured-Launched opts s t kept named h =
      let s1 = (fix_volumes D env s).1 in
      let (_, _, g1) = continue-ok (fix_volumes D env s).0 _ s1 t tt h in
      let shared = share_volumes D env s1.srv.volumes opts in
      let setup = setup_data_if D env s1.srv.auto_data shared in
      let s2 = (setup s1).1 in
      let (o, given, g2) = continue-ok (setup s1).0 _ s2 t tt g1 in
      let s3 = (ensure_created D env o s2).1 in
      let (_, made, g3) = continue-ok (ensure_created D env o s2).0 _ s3 t tt g2 in
      let s4 = (start_container D env o.name o.host_config s3).1 in
      let (u, started, g4) =
        continue-ok (start_container D env o.name o.host_config s3).0 _ s4 t tt g3 in
      let before : s2.ops ≡ s.ops =
        setup_data_if-KeepsOps D env s1.srv.auto_data shared s1 ∙ fix_volumes-KeepsOps D env s in
      let same : s4.ops ≡ s.ops =
        start_container-KeepsOps o.name o.host_config s3
        ∙ ensure_created-KeepsOps D env o s2
        ∙ before in
      let there =
        subst (λ ops. IsPresent D ops.srv_container_name s3.daemon ⊎ Created D o s3.daemon) before
          (ensure_created-Present D env o s2 s3 (ap (λ r. (r, s3)) made)) in
      kept-Launched s.ops.srv_container_name o s s3 s4 t same kept
        (setup_data_if-Returns D env s1.srv.auto_data shared s1 s2 o (ap (λ r. (r, s2)) given)
          ∙ share_volumes-name D env s1.srv.volumes opts
          ∙ named)
        there (start_container-accepted o.name o.host_config s3 u started) g4

  crash-Returns : (P : Unit {0} → Type 0) → Returns P (crash D)
  unfolding crash
  crash-Returns P s t a h = absurd (cc h)

  if-Returns :
      (P : Unit {0} → Type 0) (b : Bool) (m n : Exec D (Unit {0}))
      → Returns P m
      → Returns P n
      → Returns P (if b then m else n)
  if-Returns P true m n h k = h
  if-Returns P false m n h k = k

  found-crash :
      (P : Unit {0} → Type 0) (found : Option ApiContainer)
      → Returns P (elim found as (λ _. Exec D (Unit {0})) [
        | some _ ↦ crash D
        | none ↦ do create_zero D env; crash D
      ])
  found-crash P (some c) = crash-Returns P
  found-crash P none = bind-Returns P (create_zero D env) _ (λ _. crash-Returns P)

  run_zero-Returns : (P : Unit {0} → Type 0) → Returns P (run_zero D env)
  unfolding run_zero
  run_zero-Returns P = bind-Returns P (fix_volumes D env) _ (λ _.
      bind-Returns P (get_srv D) _ (λ srv.
        if-Returns P srv.auto_data _ _
          (bind-Returns P (set_srv D (data_image srv)) _ (λ _. crash-Returns P))
          (bind-Returns P (find_existing D env) _ (found-crash P))))

  -- The dispatch of `DockerRunService` on the configured options.
  run_case :
      (configured : Configured) (s t : Session D)
      → s.ops.remove ≡ false
      → ((opts : CreateOptions) → configured ≡ options opts → opts.name ≡ s.ops.srv_container_name)
      → (elim configured as (λ _. Exec D (Unit {0})) [
        | options opts ↦ run_configured D env opts
        | zero_options ↦ run_zero D env
        | panic ↦ crash D
      ])
          s
        ≡ (ok tt, t)
      → Launched s.ops.srv_container_name t.daemon
  run_case (options opts) s t kept named h =
      run_configured-Launched opts s t kept (named opts refl) h
  run_case zero_options s t kept named h =
      run_zero-Returns (λ _. Launched s.ops.srv_container_name t.daemon) s t tt h
  run_case panic s t kept named h =
      crash-Returns (λ _. Launched s.ops.srv_container_name t.daemon) s t tt h

  numbered-kept :
      (ops : Operation)
      → ((numbered ops).srv_container_name ≡ ops.srv_container_name)
        × ((numbered ops).remove ≡ ops.remove)
  unfolding numbered
  numbered-kept ops = ground arith

  idle_run :
      (s : Session D)
      → parse_containers D s.daemon s.ops.srv_container_name false ≡ none
      → docker_run_service D env s
        ≡ (elim (configure_service_container s.srv s.ops) as (λ _. Exec D (Unit {0})) [
          | options opts ↦ run_configured D env opts
          | zero_options ↦ run_zero D env
          | panic ↦ crash D
        ])
            (record s { ops = numbered s.ops })
  unfolding docker_run_service get_srv get_ops set_ops find_running
  idle_run s idle = rw idle refl

  running_run :
      (s : Session D) (c : ApiContainer)
      → parse_containers D s.daemon s.ops.srv_container_name false ≡ some c
      → docker_run_service D env s ≡ (ok tt, s)
  unfolding docker_run_service find_running pure
  running_run s c running = rw running refl

  idle-Launched :
      (s t : Session D)
      → s.ops.remove ≡ false
      → parse_containers D s.daemon s.ops.srv_container_name false ≡ none
      → docker_run_service D env s ≡ (ok tt, t)
      → Launched s.ops.srv_container_name t.daemon
  idle-Launched s t kept idle h =
      let (same_name, same_remove) = numbered-kept s.ops in
      subst (λ n. Launched n t.daemon) same_name
        (run_case (configure_service_container s.srv s.ops) (record s { ops = numbered s.ops }) t
          (same_remove ∙ kept)
          (λ opts c. configure_service_container-name s.srv s.ops opts c ∙ sym same_name)
          (sym (idle_run s idle) ∙ h))

  -- If starting a service succeeds and its container is not to be removed, then either a container of
  -- its name was found among the running ones and nothing was changed, or none was found: then the state
  -- that is left is that of a start of the container of that name that the daemon accepted, and in the
  -- state before that start the container was listed, or its accepted creation had left that state.
  pub docker_run_service-Launched :
      (s t : Session D)
      → s.ops.remove ≡ false
      → docker_run_service D env s ≡ (ok tt, t)
      → ((c : ApiContainer) × (parse_containers D s.daemon s.ops.srv_container_name false ≡ some c)
          × (t ≡ s))
        ⊎ ((parse_containers D s.daemon s.ops.srv_container_name false ≡ none)
            × Launched s.ops.srv_container_name t.daemon)
  docker_run_service-Launched s t kept h =
      elim (Option-cases (parse_containers D s.daemon s.ops.srv_container_name false)) [
        | inl idle ↦ inr (idle, idle-Launched s t kept idle h)
        | inr (c, running) ↦ inl (c, running, ap (λ p. p.1) (sym h ∙ running_run s c running))
      ]
