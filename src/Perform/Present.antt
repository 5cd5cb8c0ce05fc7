-- ===== src/Perform/Present.antt =====
-- The container that a service is started in: it was there, or it was created.
use eris_cli.Base.{
  ◌≡◌, refl, sym, ◌∙◌, ap, ◌⊎◌, inl, inr, ◌||◌, Bool-cases, Option, none, some, true,
}
use eris_cli.Strings.{Text}
use eris_cli.Docker.{
  ApiContainer, Container, CreateOptions, DockerClient, Answer, done, failed, failure,
  no_such_image,
}
use eris_cli.Listing.{parse_containers}
use eris_cli.Perform.Action.{
  Env, Session, ok, Exec, pure, raise, ask, call, returned, get_ops, ◌>>◌,
}
use eris_cli.Perform.Calls.{assents, pull_image, find_existing, create_container, after_create}
use eris_cli.Perform.Service.{ensure_created}
use eris_cli.Perform.Steps.{continue-ok, returned-done}

module _ (D : DockerClient) where
  -- The daemon has made a container with these options, which left this state.
  abbrev pub Created : CreateOptions → D.State → Type 0
  Created opts t = (c : Container) × (s : D.State) × (D.create_container opts s ≡ (done c, t))

  -- The listing of all containers has one of the name.
  abbrev pub IsPresent : Text → D.State → Type 0
  IsPresent name t = (c : ApiContainer) × (parse_containers D t name true ≡ some c)

module _ (D : DockerClient) (env : Env D) where
  after_create-Created :
      (opts : CreateOptions) (answer : Answer Container) (before : D.State) (s t : Session D)
      (c : Container)
      → D.create_container opts before ≡ (answer, s.daemon)
      → after_create D env opts answer s ≡ (ok c, t)
      → Created D opts t.daemon
  unfolding after_create pure raise
  after_create-Created opts (done d) before s t c e h =
      (d, before, e ∙ ap (λ p. (done d, p.1.daemon)) h)
  after_create-Created opts (failed (failure f)) before s t c e h = absurd (cc h)
  after_create-Created opts (failed no_such_image) before s t c e h =
      elim (Bool-cases (env.pull_approve || assents D env env.reply)) [
        | inl assent ↦
            let pulled = pull_image D env opts.config.image s in
            let (_, _, g) = continue-ok pulled.0 _ pulled.1 t c (rw assent at h) in
            let again = D.create_container opts pulled.1.daemon in
            let called : (◌≡◌ {A = _} (returned D again.0, record pulled.1 { daemon = again.1 })
                (ok c, t)) =
              unfold call in g in
            let fine = returned-done D again.0 c (ap (λ p. p.0) called) in
            (c, pulled.1.daemon, λ i. (fine i, (ap (λ p. p.1.daemon) called) i))
        | inr refusal ↦ absurd (cc (rw refusal at h))
      ]

  create_container-Created :
      (opts : CreateOptions) (s t : Session D) (c : Container)
      → create_container D env opts s ≡ (ok c, t)
      → Created D opts t.daemon
  unfolding create_container ask
  create_container-Created opts s t c h =
      let first = D.create_container opts s.daemon in
      after_create-Created opts first.0 s.daemon (record s { daemon = first.1 }) t c refl h

  found-Present :
      (opts : CreateOptions) (found : Option ApiContainer) (s t : Session D)
      → parse_containers D s.daemon s.ops.srv_container_name true ≡ found
      → (elim found as (λ _. Exec D (Unit {0})) [
        | some _ ↦ pure D tt
        | none ↦ do create_container D env opts; pure D tt
      ])
          s
        ≡ (ok tt, t)
      → IsPresent D s.ops.srv_container_name t.daemon ⊎ Created D opts t.daemon
  unfolding pure
  found-Present opts (some c) s t e h = inl (
    c,
    ap (λ d. parse_containers D d s.ops.srv_container_name true) (sym (ap (λ p. p.1.daemon) h)) ∙ e,
  )
  found-Present opts none s t e h =
      let made = create_container D env opts s in
      let (c, fine, rest) = continue-ok made.0 (λ _. pure D tt) made.1 t tt h in
      inr (create_container-Created opts s t c (λ i. (fine i, (ap (λ p. p.1) rest) i)))

  -- The container is listed in the state that is left, or its creation has left that state.
  pub ensure_created-Present :
      (opts : CreateOptions) (s t : Session D)
      → ensure_created D env opts s ≡ (ok tt, t)
      → IsPresent D s.ops.srv_container_name t.daemon ⊎ Created D opts t.daemon
  unfolding ensure_created find_existing get_ops
  ensure_created-Present opts s t h =
      found-Present opts (parse_containers D s.daemon s.ops.srv_container_name true) s t refl h
