-- ===== src/Perform/Steps.antt =====
-- Sequences of actions: what a sequence that returned has done.
use eris_cli.Base.{◌≡◌, refl, ◌∙◌}
use eris_cli.Docker.{DockerClient, Answer, done, failed}
use eris_cli.Perform.Action.{
  Session, Result, ok, err, Exec, returned, pure, ◌>>=◌, continue, blocks, panics,
}

module _ {D : DockerClient} {A : Type 0} where
  -- The action leaves the operation as it is.
  abbrev pub KeepsOps : Exec D A → Type 0
  KeepsOps m = (s : Session D) → (m s).1.ops ≡ s.ops

module _ {D : DockerClient} {A B : Type 0} where
  pub continue-ok :
      (r : Result A) (f : A → Exec D B) (s t : Session D) (b : B)
      → continue r f s ≡ (ok b, t)
      → (a : A) × (r ≡ ok a) × (f a s ≡ (ok b, t))
  continue-ok (ok a) f s t b h = (a, refl, h)
  continue-ok (err e) f s t b h = cc
  continue-ok panics f s t b h = cc
  continue-ok blocks f s t b h = cc

  continue-KeepsOps :
      (r : Result A) (f : A → Exec D B) (s : Session D)
      → ((a : A) → (f a s).1.ops ≡ s.ops)
      → (continue r f s).1.ops ≡ s.ops
  continue-KeepsOps (ok a) f s h = h a
  continue-KeepsOps (err e) f s h = refl
  continue-KeepsOps panics f s h = refl
  continue-KeepsOps blocks f s h = refl

module _ {D : DockerClient} {A B : Type 0} where
  pub bind-KeepsOps :
      (m : Exec D A) (f : A → Exec D B)
      → KeepsOps m
      → ((a : A) → KeepsOps (f a))
      → KeepsOps (m >>= f)
  bind-KeepsOps m f h k s = continue-KeepsOps (m s).0 f (m s).1 (λ a. k a (m s).1) ∙ h s

module _ {D : DockerClient} {A : Type 0} where
  pub pure-KeepsOps : (a : A) → KeepsOps (pure D a)
  unfolding pure
  pure-KeepsOps a s = refl

  -- What the action returns has the property.
  abbrev pub Returns : (A → Type 0) → Exec D A → Type 0
  Returns P m = (s t : Session D) (a : A) → m s ≡ (ok a, t) → P a

  pub pure-Returns : (P : A → Type 0) (a : A) → P a → Returns P (pure D a)
  unfolding pure
  pure-Returns P a p s t b h = let e : b ≡ a = cc in rw e p

module _ {D : DockerClient} {A B : Type 0} where
  pub bind-Returns :
      (P : B → Type 0) (m : Exec D A) (f : A → Exec D B)
      → ((a : A) → Returns P (f a))
      → Returns P (m >>= f)
  bind-Returns P m f k s t b h =
      let (a, _, e) = continue-ok (m s).0 f (m s).1 t b h in k a (m s).1 t b e

module _ (D : DockerClient) where
  pub returned-done :
      {A : Type 0} (answer : Answer A) (a : A) → returned D answer ≡ ok a → answer ≡ done a
  returned-done (done b) a h = cc
  returned-done (failed e) a h = cc
