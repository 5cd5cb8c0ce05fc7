-- ===== src/Chains/Setup/Cleaned.antt =====
-- What is left when the set up of a chain fails.
use eris_cli.Base.{◌≡◌, refl, ap, ◌⊎◌, inl, inr}
use eris_cli.Strings.{Text}
use eris_cli.Definitions.Do.{Do}
use eris_cli.Docker.{DockerClient}
use eris_cli.Command.{Failure, tragic, Reply, returns, fails, crashes, waits, unending, Command}
use eris_cli.Command.Steps.{follow-fails}
use eris_cli.Command.Machine.{Machine, Site}
use eris_cli.Command.Named.{forgetting}
use eris_cli.Chains.Setup.{clean_up, with_clean_up, prepare_setup, set_up, rm_named, setup_chain}

module _ {S : Type 0} where
  -- The body failed, and the removal was made, or that failed as well.
  pub record Cleaned (remove body : Command S (Unit {0})) (f : Failure) (s t : S) : Type 0 where
    pub error : Failure
    pub at : S
    pub body_failed : body s ≡ (fails error, at)
    pub removal :
        ((remove at ≡ (returns tt, t)) × (f ≡ error))
        ⊎ ((second : Failure) × (remove at ≡ (fails second, t)) × (f ≡ tragic error second))

  cleaned_by :
      (r : Reply (Unit {0})) (u t : S) (e f : Failure)
      → ◌≡◌ {A = Reply (Unit {0}) × S}
          (elim r as (λ _. Reply (Unit {0}) × S) [
            | fails e2 ↦ (fails (tragic e e2), u)
            | returns v ↦ (fails e, u)
            | other ↦ (other, u)
          ])
          (fails f, t)
      → ((r ≡ returns tt) × (u ≡ t) × (f ≡ e))
        ⊎ ((second : Failure) × (r ≡ fails second) × (u ≡ t) × (f ≡ tragic e second))
  cleaned_by (returns v) u t e f h = inl (refl, ap (λ p. p.1) h, cc h)
  cleaned_by (fails e2) u t e f h = inr (e2, refl, ap (λ p. p.1) h, cc h)
  cleaned_by crashes u t e f h = absurd (cc h)
  cleaned_by waits u t e f h = absurd (cc h)
  cleaned_by unending u t e f h = absurd (cc h)

  after_body-Cleaned :
      (remove body : Command S (Unit {0})) (f : Failure) (s at t : S) (r : Reply (Unit {0}))
      → body s ≡ (r, at)
      → ◌≡◌ {A = Reply (Unit {0}) × S}
          (elim r as (λ _. Reply (Unit {0}) × S) [
            | fails e ↦ clean_up remove e at
            | other ↦ (other, at)
          ])
          (fails f, t)
      → Cleaned remove body f s t
  unfolding clean_up
  after_body-Cleaned remove body f s at t (returns v) ran h = absurd (cc h)
  after_body-Cleaned remove body f s at t crashes ran h = absurd (cc h)
  after_body-Cleaned remove body f s at t waits ran h = absurd (cc h)
  after_body-Cleaned remove body f s at t unending ran h = absurd (cc h)
  after_body-Cleaned remove body f s at t (fails e) ran h =
      let removed = remove at in
      record {
        error = e;
        at = at;
        body_failed = ran;
        removal = elim (cleaned_by removed.0 removed.1 t e f h) [
          | inl (fine, left, same) ↦ inl (λ i. (fine i, left i), same)
          | inr (second, bad, left, same) ↦ inr (second, λ i. (bad i, left i), same)
        ];
      }

  with_clean_up-Cleaned :
      (remove body : Command S (Unit {0})) (f : Failure) (s t : S)
      → with_clean_up remove body s ≡ (fails f, t)
      → Cleaned remove body f s t
  unfolding with_clean_up
  with_clean_up-Cleaned remove body f s t h =
      let ran = body s in after_body-Cleaned remove body f s ran.1 t ran.0 refl h

module _ (D : DockerClient) (M : Machine D) where
  -- If the set up of a chain fails, then either it failed before the chain's files were placed, and that
  -- is the error; or what followed failed, and the removal of a chain was tried in the state that it
  -- left, under the name that it left in the request: the error is that of the set up, or, if the
  -- removal failed too, both.
  pub setup_chain-Cleaned :
      (asked : Do) (cmd : Text) (f : Failure) (s t : Site D M)
      → setup_chain D M asked cmd s ≡ (fails f, t)
      → (prepare_setup D M asked s ≡ (fails f, t))
        ⊎ ((ready : Do) × (u : Site D M) × (name : Text) × (prepare_setup D M asked s
              ≡ (returns ready, u))
            × Cleaned (rm_named D M ready) (set_up D M ready cmd) f (ready.name, u) (name, t))
  unfolding setup_chain forgetting
  setup_chain-Cleaned asked cmd f s t h =
      let first = prepare_setup D M asked s in
      let body = λ (ready : Do). with_clean_up (rm_named D M ready) (set_up D M ready cmd) in
      let next = λ (ready : Do). forgetting ready.name (body ready) in
      elim (follow-fails first.0 next first.1 t f h) [
        | inr (e, left) ↦ inl (λ i. (e i, left i))
        | inl (ready, e, rest) ↦
            let ran = body ready (ready.name, first.1) in
            let failed : ran ≡ (fails f, (ran.1.0, t)) = λ i. ((rest i).0, (ran.1.0, (rest i).1)) in
            let cleaned =
              with_clean_up-Cleaned (rm_named D M ready) (set_up D M ready cmd) f
                (ready.name, first.1) (ran.1.0, t) failed in
            inr (ready, first.1, ran.1.0, λ i. (e i, first.1), cleaned)
      ]
