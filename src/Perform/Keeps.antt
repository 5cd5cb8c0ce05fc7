-- ===== src/Perform/Keeps.antt =====
-- The parts of `DockerRunService` that leave the operation as it is, and the name of the options.
use eris_cli.Base.{
  ◌≡◌, refl, Bool, true, false, none, some, ◌||◌, Option, List, arith, Bool-cases, inl, inr,
}
use eris_cli.Strings.{Text}
use eris_cli.Definitions.{Operation}
use eris_cli.Docker.{
  Container, no_such_image, failure, ApiContainer, DockerClient, Answer, done, failed,
  CreateOptions,
}
use eris_cli.Configure.{data_image, configure_data_container, with_data_volumes}
use eris_cli.Perform.Action.{Env, Exec, pure, raise, ◌>>◌, get_srv, get_ops, set_srv, call, ask}
use eris_cli.Perform.Calls.{
  assents, pull_image, find_existing, find_data, create_container, after_create, fix_volumes,
}
use eris_cli.Perform.Service.{ensure_created, setup_data_if, setup_data, share_volumes}
use eris_cli.Perform.Steps.{
  KeepsOps, bind-KeepsOps, pure-KeepsOps, Returns, bind-Returns, pure-Returns,
}

with_data_volumes-name :
    (ops : Operation) (opts : CreateOptions) → (with_data_volumes ops opts).name ≡ opts.name
unfolding with_data_volumes
with_data_volumes-name ops opts = refl

module _ (D : DockerClient) (env : Env D) where
  after_create-KeepsOps :
      (opts : CreateOptions) (answer : Answer Container) → KeepsOps (after_create D env opts answer)
  unfolding after_create pure raise
  after_create-KeepsOps opts (done c) s = refl
  after_create-KeepsOps opts (failed (failure e)) s = refl
  after_create-KeepsOps opts (failed no_such_image) s =
      elim (Bool-cases (env.pull_approve || assents D env env.reply)) [
        | inl assent ↦ rw assent (
            bind-KeepsOps (pull_image D env opts.config.image)
              (λ _. call D (D.create_container opts)) (λ t. unfold pull_image call in refl)
              (λ _ t. unfold call in refl) s)
        | inr refusal ↦ rw refusal refl
      ]

  create_container-KeepsOps : (opts : CreateOptions) → KeepsOps (create_container D env opts)
  unfolding create_container ask
  create_container-KeepsOps opts s = after_create-KeepsOps opts _ _

  pub fix_volumes-KeepsOps : KeepsOps (fix_volumes D env)
  unfolding fix_volumes set_srv pure raise
  fix_volumes-KeepsOps s = ground arith

  find_data-KeepsOps : KeepsOps (find_data D env)
  unfolding find_data
  find_data-KeepsOps s = refl

  created-KeepsOps :
      (opts : CreateOptions) (found : Option ApiContainer)
      → KeepsOps (elim found as (λ _. Exec D (Unit {0})) [
        | some _ ↦ pure D tt
        | none ↦ do create_container D env opts; pure D tt
      ])
  created-KeepsOps opts (some c) s = unfold pure in refl
  created-KeepsOps opts none s =
      bind-KeepsOps (create_container D env opts) _ (create_container-KeepsOps opts)
        (λ _. pure-KeepsOps _) s

  pub ensure_created-KeepsOps : (opts : CreateOptions) → KeepsOps (ensure_created D env opts)
  unfolding ensure_created
  ensure_created-KeepsOps opts =
      bind-KeepsOps (find_existing D env) _ (λ s. unfold find_existing in refl)
        (created-KeepsOps opts)

  setup_data-KeepsOps : (opts : CreateOptions) → KeepsOps (setup_data D env opts)
  unfolding setup_data get_srv get_ops set_srv
  setup_data-KeepsOps opts s =
      bind-KeepsOps (find_data D env) _ find_data-KeepsOps
        (λ found.
          bind-KeepsOps _ _
            (created-KeepsOps (configure_data_container s.srv s.ops (some opts.name)) found)
            (λ _. pure-KeepsOps _))
        (record s { srv = data_image s.srv })

  pub setup_data_if-KeepsOps :
      (auto : Bool) (opts : CreateOptions) → KeepsOps (setup_data_if D env auto opts)
  unfolding setup_data_if
  setup_data_if-KeepsOps false opts s = unfold pure in refl
  setup_data_if-KeepsOps true opts s = setup_data-KeepsOps opts s

  pub share_volumes-name :
      (volumes : List Text) (opts : CreateOptions)
      → (share_volumes D env volumes opts).name ≡ opts.name
  unfolding share_volumes
  share_volumes-name volumes opts = refl

  setup_data-Returns :
      (opts : CreateOptions) → Returns (λ given. given.name ≡ opts.name) (setup_data D env opts)
  unfolding setup_data
  setup_data-Returns opts = bind-Returns _ (get_srv D) _ (λ srv.
      bind-Returns _ (get_ops D) _ (λ ops. bind-Returns _ (set_srv D (data_image srv)) _ (λ _.
        bind-Returns _ (find_data D env) _ (λ found.
          bind-Returns _ _ _
            (λ _. pure-Returns _ (with_data_volumes ops opts) (with_data_volumes-name ops opts))))))

  pub setup_data_if-Returns :
      (auto : Bool) (opts : CreateOptions)
      → Returns (λ given. given.name ≡ opts.name) (setup_data_if D env auto opts)
  unfolding setup_data_if
  setup_data_if-Returns false opts s t given h =
      pure-Returns (λ o. o.name ≡ opts.name) opts refl s t given h
  setup_data_if-Returns true opts s t given h = setup_data-Returns opts s t given h
