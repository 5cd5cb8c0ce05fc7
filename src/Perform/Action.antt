-- ===== src/Perform/Action.antt =====
-- Actions on a session: they return a value, return an error, panic, or wait for ever.
use eris_cli.Base.{Bool, true, false, Option}
use eris_cli.Base.Int.{ℤ}
use eris_cli.Strings.{Text}
use eris_cli.Definitions.{Operation, Service}
use eris_cli.Docker.{DockerClient, DockerError, Answer, done, failed}

-- What the program reads of its surroundings.
pub record Env (D : DockerClient) : Type 0 where
  -- `ERIS_PULL_APPROVE` is "true"
  pub pull_approve : Bool
  -- `CIRCLE_BRANCH` is not empty
  pub on_circle : Bool
  -- the line that `Scanln` reads
  pub reply : Text
  pub working_dir : Option Text
  pub eris_root : Text
  pub container_root : Text
  pub git_user : Option Text
  -- `filepath.Join` of the two directories and `ops.Volume`
  pub host_volume : Text → Text
  pub container_volume : Text → Text
  -- the bytes of `GlobalConfig.Writer`, if it is a buffer
  pub buffer : D.State → Option Text
  -- whether `append` finds room behind the service's volumes
  pub spare : Bool
  -- whether `AttachToContainer` signals its success
  pub attaches : Text → D.State → Bool

pub record Session (D : DockerClient) : Type 0 where
  pub daemon : D.State
  pub srv : Service
  pub ops : Operation

pub data Error : Type 0 where
  container_exists pull_refused no_working_dir : Error
  docker : DockerError → Error
  exit_status : Text → ℤ → Option DockerError → Error
  -- the error before, if any, and that of the removal
  tragic : Error → DockerError → Error
  tragic_removal : DockerError → Error

pub data Result {ℓ} (A : Type ℓ) : Type ℓ where
  ok : A → Result A
  err : Error → Result A
  panics : Result A
  blocks : Result A

abbrev pub never_ends {ℓ} : {A : Type ℓ} → Result A → Bool
never_ends blocks = true
never_ends _ = false

module _ (D : DockerClient) where
  abbrev pub Exec : Type 0 → Type 0
  Exec A = Session D → Result A × Session D

module _ (D : DockerClient) {A : Type 0} where
  unfoldable pub pure : A → Exec D A
  pure a s = (ok a, s)

  unfoldable pub raise : Error → Exec D A
  raise e s = (err e, s)

  unfoldable pub crash : Exec D A
  crash s = (panics, s)

  -- A call of the client that does not stop the action when it fails.
  unfoldable pub ask : (D.State → Answer A × D.State) → Exec D (Answer A)
  ask f s = let (a, t) = f s.daemon in (ok a, record s { daemon = t })

  abbrev pub returned : Answer A → Result A
  returned (done a) = ok a
  returned (failed e) = err (docker e)

  unfoldable pub call : (D.State → Answer A × D.State) → Exec D A
  call f s = let (a, t) = f s.daemon in (returned a, record s { daemon = t })

  unfoldable pub gets : (Session D → A) → Exec D A
  gets f s = (ok (f s), s)

module _ (D : DockerClient) where
  unfoldable pub get_srv : Exec D Service
  get_srv s = (ok s.srv, s)

  unfoldable pub get_ops : Exec D Operation
  get_ops s = (ok s.ops, s)

  unfoldable pub set_srv : Service → Exec D (Unit {0})
  set_srv srv s = (ok tt, record s { srv = srv })

  unfoldable pub set_ops : Operation → Exec D (Unit {0})
  set_ops ops s = (ok tt, record s { ops = ops })

module _ {D : DockerClient} {A B : Type 0} where
  abbrev pub continue : Result A → (A → Exec D B) → Session D → Result B × Session D
  continue (ok a) f s = f a s
  continue (err e) f s = (err e, s)
  continue panics f s = (panics, s)
  continue blocks f s = (blocks, s)

  infixl 5 ◌>>=◌ ◌>>◌
  abbrev pub ◌>>=◌ : Exec D A → (A → Exec D B) → Exec D B
  ◌>>=◌ m f s = let (r, t) = m s in continue r f t

  abbrev pub ◌>>◌ : Exec D A → Exec D B → Exec D B
  m >> n = m >>= λ _. n
