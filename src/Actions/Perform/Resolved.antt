-- ===== src/Actions/Perform/Resolved.antt =====
-- What the steps of an action see, and which chain an action starts.
use eris_cli.Base.{
  ◌≡◌, refl, sym, ◌∙◌, ap, Bool, some, List, [], ◌∷◌, ◌++◌, append-nil, if◌then◌else◌,
}
use eris_cli.Strings.{Text, text_eq, init}
use eris_cli.Definitions.Do.{Do}
use eris_cli.Docker.{DockerClient}
use eris_cli.Command.{Reply, returns, fails, crashes, waits, unending, give, follow}
use eris_cli.Command.World.{World}
use eris_cli.Actions.Perform.{
  Action, Ended, performed, step_failed, prev_of, later_steps, perform_steps, perform_command,
  environment_vars, resolve_chain, start_services, start_services_and_chains,
}

module _ {S : Type 0} (run : List Text → Text → S → (Text × Bool) × S) where
  -- What the steps are meant to see: the variables, and the output of the step before.
  pub each_with_prev : List Text → List Text → List Text → S → Ended × S
  each_with_prev vars prev [] s = (performed, s)
  each_with_prev vars prev (step ∷ steps) s =
      let ((output, failed), t) = run (vars ++ prev) step s in
      let rest = each_with_prev vars (prev_of output ∷ []) steps t in
      if failed then (step_failed output, t) else rest

  init-snoc : (vars : List Text) (p : Text) → init (vars ++ p ∷ []) ≡ vars
  init-snoc [] p = refl
  init-snoc (v ∷ []) p = refl
  init-snoc (v ∷ u ∷ vars) p = ap (λ vs. v ∷ vs) (init-snoc (u ∷ vars) p)

  later_steps_lem :
      (vars : List Text) (p : Text) (steps : List Text) (s : S)
      → later_steps run (vars ++ p ∷ []) steps s ≡ each_with_prev vars (p ∷ []) steps s
  unfolding later_steps each_with_prev
  later_steps_lem vars p [] s = refl
  later_steps_lem vars p (step ∷ steps) s =
      let ran = run (vars ++ p ∷ []) step s in
      ap (λ rest. if ran.0.1 then (step_failed ran.0.0, ran.1) else rest)
        (ap (λ vs. later_steps run (vs ++ prev_of ran.0.0 ∷ []) steps ran.1) (init-snoc vars p)
          ∙ later_steps_lem vars (prev_of ran.0.0) steps ran.1)

  perform_steps_lem :
      (vars steps : List Text) (s : S)
      → perform_steps run vars steps s ≡ each_with_prev vars [] steps s
  unfolding perform_steps each_with_prev
  perform_steps_lem vars [] s = refl
  perform_steps_lem vars (step ∷ steps) s =
      let first = run (vars ++ []) step s in
      ap
        (λ vs.
          let ((output, failed), t) = run vs step s in
          if failed
          then (step_failed output, t)
          else later_steps run (vars ++ prev_of output ∷ []) steps t)
        (sym (append-nil vars))
      ∙ ap (λ rest. if first.0.1 then (step_failed first.0.0, first.1) else rest)
          (later_steps_lem vars (prev_of first.0.0) steps first.1)

module _ {S : Type 0} (shell : Text → List Text → Text → S → (Text × Bool) × S) where
  -- The steps of an action run in the working directory and in their order until one fails. The first
  -- sees the variables of the process, of the command line and of the definition, and each further
  -- one these and, as `prev`, the trimmed output of the step before it alone.
  pub perform_command_lem :
      (dir : Text) (environ given : List Text) (action : Action) (s : S)
      → perform_command shell (some dir) environ given action s
        ≡ each_with_prev
            (shell dir)
            (environ ++ (given ++ environment_vars action.environment))
            []
            action.steps
            s
  unfolding perform_command
  perform_command_lem dir environ given action s =
      perform_steps_lem (shell dir) (environ ++ (given ++ environment_vars action.environment))
        action.steps s

module _ (D : DockerClient) (w : World D) where
  give-last : (r : Reply (Unit {0})) (s : D.State) → follow r (λ _. give tt) s ≡ (r, s)
  unfolding give
  give-last (returns u) s = refl
  give-last (fails e) s = refl
  give-last crashes s = refl
  give-last waits s = refl
  give-last unending s = refl

  -- Without a chain on the command line, an action starts its services and nothing else: the chain of
  -- its definition is dropped.
  pub resolve_chain_drops :
      (asked : Do) (action : Action) (s : D.State)
      → start_services_and_chains D w asked (resolve_chain [] action) s
        ≡ start_services D w action.dependencies s
  unfolding start_services_and_chains resolve_chain text_eq
  resolve_chain_drops asked action s =
      let ran = start_services D w action.dependencies s in give-last ran.0 ran.1
