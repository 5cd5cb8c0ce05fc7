-- ===== src/Command/Steps.antt =====
-- What a sequence of commands that returned has done.
use eris_cli.Base.{Option, none, some, ◌≡◌, ◌⊎◌, inl, inr, ap, refl}
use eris_cli.Command.{
  Failure, Reply, returns, fails, crashes, waits, unending, Command, follow, outcome_reply,
  option_reply, result_reply, give, perform_writing,
}
use eris_cli.Definitions.{Operation, Service}
use eris_cli.Docker.{DockerClient}
use eris_cli.Perform.Action.{Session, Error, Result, ok, err, panics, blocks, Exec}
use eris_cli.Loaders.Outcome.{Outcome, loaded, refused, panicked}

module _ {S A B : Type 0} where
  pub follow-returns :
      (r : Reply A) (f : A → Command S B) (s t : S) (b : B)
      → follow r f s ≡ (returns b, t)
      → (a : A) × (r ≡ returns a) × (f a s ≡ (returns b, t))
  follow-returns (returns a) f s t b h = (a, refl, h)
  follow-returns (fails e) f s t b h = absurd (cc h)
  follow-returns crashes f s t b h = absurd (cc h)
  follow-returns waits f s t b h = absurd (cc h)
  follow-returns unending f s t b h = absurd (cc h)

  -- A sequence that failed failed in its first part, or in its second.
  pub follow-fails :
      (r : Reply A) (f : A → Command S B) (s t : S) (e : Failure)
      → follow r f s ≡ (fails e, t)
      → ((a : A) × (r ≡ returns a) × (f a s ≡ (fails e, t))) ⊎ ((r ≡ fails e) × (s ≡ t))
  follow-fails (returns a) f s t e h = inl (a, refl, h)
  follow-fails (fails g) f s t e h = inr (ap fails (cc h), ap (λ p. p.1) h)
  follow-fails crashes f s t e h = absurd (cc h)
  follow-fails waits f s t e h = absurd (cc h)
  follow-fails unending f s t e h = absurd (cc h)

pub outcome_reply-returns :
    {A : Type 0} (o : Outcome A) (a : A) → outcome_reply o ≡ returns a → o ≡ loaded a
outcome_reply-returns (loaded b) a h = ap loaded (cc h)
outcome_reply-returns (refused e) a h = absurd (cc h)
outcome_reply-returns panicked a h = absurd (cc h)

pub option_reply-returns :
    {A : Type 0} (o : Option (Outcome A)) (a : A) → option_reply o ≡ returns a → o ≡ some (loaded a)
option_reply-returns none a h = absurd (cc h)
option_reply-returns (some o) a h = ap some (outcome_reply-returns o a h)

module _ (D : DockerClient) (wrap : Error → Failure) where
  result_reply-returns :
      (r : Result (Unit {0})) (u : Unit {0}) → result_reply wrap r ≡ returns u → r ≡ ok tt
  result_reply-returns (ok v) u h = refl
  result_reply-returns (err e) u h = absurd (cc h)
  result_reply-returns panics u h = absurd (cc h)
  result_reply-returns blocks u h = absurd (cc h)

  pub perform_writing-returns :
      (action : Exec D (Unit {0})) (srv : Service) (ops out : Operation) (s t : D.State)
      → perform_writing D wrap action srv ops s ≡ (returns out, t)
      → (u : Session D) × (action (record { daemon = s; srv = srv; ops = ops }) ≡ (ok tt, u))
        × (u.ops ≡ out)
        × (u.daemon ≡ t)
  unfolding perform_writing give
  perform_writing-returns action srv ops out s t h =
      let ran = action (record { daemon = s; srv = srv; ops = ops }) in
      let (u, e, rest) =
        follow-returns (result_reply wrap ran.0) (λ _ d. (returns ran.1.ops, d)) ran.1.daemon t out
          h in
      (ran.1, ap (λ r. (r, ran.1)) (result_reply-returns ran.0 u e), cc rest, ap (λ p. p.1) rest)
