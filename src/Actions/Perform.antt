-- ===== src/Actions/Perform.antt =====
-- Performing an action (actions/perform.go). `shell` stands for running a step by `sh -c` in a
-- directory and with an environment: the output, and whether the step failed.
pub mod Resolved
use eris_cli.Base.{
  ◌≡◌, refl, sym, ◌∙◌, ap, Bool, true, false, Bool-cases, inl, inr, Option, none, some, List, [],
  ◌∷◌, ◌++◌, map, if◌then◌else◌,
}
use eris_cli.Strings.{Text, codes, text_eq, is_space, init}
use eris_cli.Dict.{Dict}
use eris_cli.Definitions.{Dependencies, Operation}
use eris_cli.Definitions.Do.{Do, now_do}
use eris_cli.Docker.{DockerClient}
use eris_cli.Command.{Reply, Command, give, ◌>>=◌, ◌>>◌}
use eris_cli.Command.World.{World}
use eris_cli.Services.Operate.{start_service}
use eris_cli.Chains.Operate.{start_chain}

-- The fields of `Action` that are read.
pub record Action : Type 0 where
  pub dependencies : Option Dependencies
  pub chain : Text
  pub steps : List Text
  pub environment : Dict Text

unfoldable pub resolve_services : List Text → Action → Action
resolve_services slice action = elim action.dependencies [
  | none ↦ action
  | some deps ↦ record action {
    dependencies = some (record deps { services = deps.services ++ slice });
  }
]

unfoldable pub resolve_chain : Text → Action → Action
resolve_chain flag action =
    let cleared = if text_eq flag [] then record action { chain = flag } else action in
    if text_eq cleared.chain (codes "$chain") then record cleared { chain = flag } else cleared

module _ (D : DockerClient) (w : World D) where
  unfoldable pub start_services : Option Dependencies → Command D.State (Unit {0})
  start_services none = give tt
  start_services (some deps) = elim deps.services [
    | [] ↦ give tt
    | name ∷ names ↦
        start_service D w
          (record now_do { operations = record now_do.operations { args = name ∷ names } })
  ]

  -- The chain that is started is that of `do`, and not that of the action.
  unfoldable pub start_services_and_chains : Do → Action → Command D.State (Unit {0})
  unfolding start_services
  start_services_and_chains asked action =
      let chain = (do start_chain D w asked; give tt) in
      (do start_services action.dependencies; if text_eq action.chain [] then give tt else chain)

-- `strings.TrimSpace(s)` on ASCII
unfoldable pub trim_left : Text → Text
trim_left [] = []
trim_left (c ∷ s) = let rest = trim_left s in if is_space c then rest else c ∷ s

unfoldable pub trim_right : Text → Text
trim_right [] = []
trim_right (c ∷ s) = elim (trim_right s) [
  | [] ↦ if is_space c then [] else c ∷ []
  | d ∷ t ↦ c ∷ d ∷ t
]

unfoldable pub trim_space : Text → Text
unfolding trim_left trim_right
trim_space s = trim_right (trim_left s)

abbrev pub prev_of : Text → Text
prev_of output = codes "prev=" ++ trim_space output

unfoldable pub environment_vars : Dict Text → List Text
environment_vars vars = map (λ (k, v). k ++ (codes "=" ++ v)) vars

-- How the steps end; the error of a step shows its output.
pub data Ended : Type 0 where
  performed no_directory : Ended
  step_failed : Text → Ended

module _ {S : Type 0} (run : List Text → Text → S → (Text × Bool) × S) where
  -- The loop over the steps from one that is not the first, whose variables end with `prev`.
  unfoldable pub later_steps : List Text → List Text → S → Ended × S
  later_steps vars [] s = (performed, s)
  later_steps vars (step ∷ steps) s =
      let ((output, failed), t) = run vars step s in
      let rest = later_steps (init vars ++ prev_of output ∷ []) steps t in
      if failed then (step_failed output, t) else rest

  unfoldable pub perform_steps : List Text → List Text → S → Ended × S
  unfolding later_steps
  perform_steps vars [] s = (performed, s)
  perform_steps vars (step ∷ steps) s =
      let ((output, failed), t) = run vars step s in
      let rest = later_steps (vars ++ prev_of output ∷ []) steps t in
      if failed then (step_failed output, t) else rest

module _ {S : Type 0} (shell : Text → List Text → Text → S → (Text × Bool) × S) where
  -- The variables are those of the process, of the command line and of the definition. The working
  -- directory may be unknown.
  unfoldable pub perform_command : Option Text → List Text → List Text → Action → S → Ended × S
  unfolding perform_steps environment_vars
  perform_command none environ given action s = (no_directory, s)
  perform_command (some dir) environ given action s =
      perform_steps (shell dir) (environ ++ (given ++ environment_vars action.environment))
        action.steps s
