-- ===== src/Contracts/Run/CleansUp.antt =====
-- Whatever comes of the run of a package, it is cleaned up after.
use eris_cli.Base.{◌≡◌, refl, sym, ◌∙◌, ap, subst}
use eris_cli.Strings.{Text}
use eris_cli.Docker.{DockerClient}
use eris_cli.Command.{Reply, returns, fails, crashes, waits, unending, Command}
use eris_cli.Command.Machine.{Machine}
use eris_cli.Contracts.Booting.{Place, boot_services_and_chain}
use eris_cli.Contracts.CleanUp.{clean_up, after_clean_up}
use eris_cli.Contracts.Run.{
  define_app_action_service, perform_app_action_service, stage, set_path, perform_stage,
  define_stage, path_stage, run_loaded,
}

-- The command returned, with an error or without.
abbrev pub IsSettled : Reply (Unit {0}) → Type 0
IsSettled (returns _) = Unit {0}
IsSettled (fails _) = Unit {0}
IsSettled _ = ⊥

module _ (D : DockerClient) (M : Machine D) where
  -- The last thing that led here is a clean up.
  pub record CleanedUp (q : Place D M) : Type 0 where
    pub before : Place D M
    pub result : Reply (Unit {0})
    pub cleans : clean_up D M before ≡ (result, q)

  after_clean_up-place :
      (e r2 : Reply (Unit {0})) (q2 : Place D M) → (after_clean_up D M e r2 q2).1 ≡ q2
  after_clean_up-place e (returns u) q2 = refl
  after_clean_up-place e (fails g) q2 = refl
  after_clean_up-place e crashes q2 = refl
  after_clean_up-place e waits q2 = refl
  after_clean_up-place e unending q2 = refl

  -- What a stage comes to when its first part has come to `first`.
  abbrev staged : Command (Place D M) (Unit {0}) → Reply (Unit {0}) → Command (Place D M) (Unit {0})
  staged rest first at = elim first as (λ _. Reply (Unit {0}) × Place D M) [
    | returns _ ↦ rest at
    | fails e ↦ (let (r2, q2) = clean_up D M at in after_clean_up D M (fails e) r2 q2)
    | other ↦ (other, at)
  ]

  staged-CleanedUp :
      (rest : Command (Place D M) (Unit {0})) (first r : Reply (Unit {0})) (at q : Place D M)
      → ((p : Place D M) → rest p ≡ (r, q) → CleanedUp q)
      → staged rest first at ≡ (r, q)
      → IsSettled r
      → CleanedUp q
  staged-CleanedUp rest (returns u) r at q later h k = later at h
  staged-CleanedUp rest (fails e) r at q later h k =
      let cleaned = clean_up D M at in
      let here = sym (after_clean_up-place (fails e) cleaned.0 cleaned.1) ∙ ap (λ p. p.1) h in
      record { before = at; result = cleaned.0; cleans = λ i. (cleaned.0, here i) }
  staged-CleanedUp rest crashes r at q later h k =
      absurd (subst IsSettled (sym (ap (λ p. p.0) h)) k)
  staged-CleanedUp rest waits r at q later h k = absurd (subst IsSettled (sym (ap (λ p. p.0) h)) k)
  staged-CleanedUp rest unending r at q later h k =
      absurd (subst IsSettled (sym (ap (λ p. p.0) h)) k)

  stage-CleanedUp :
      (m rest : Command (Place D M) (Unit {0})) (p q : Place D M) (r : Reply (Unit {0}))
      → IsSettled r
      → ((p : Place D M) → rest p ≡ (r, q) → CleanedUp q)
      → stage D M m rest p ≡ (r, q)
      → CleanedUp q
  unfolding stage
  stage-CleanedUp m rest p q r k later h = staged-CleanedUp rest (m p).0 r (m p).1 q later h k

  -- If the run of a package that was loaded returns, whether with an error from booting its services or
  -- its chain, from defining or performing its action or without one, then the clean up was the last
  -- thing it did.
  pub run_loaded-CleanedUp :
      (id : Text) (p q : Place D M) (r : Reply (Unit {0}))
      → IsSettled r
      → run_loaded D M id p ≡ (r, q)
      → CleanedUp q
  unfolding run_loaded path_stage define_stage perform_stage
  run_loaded-CleanedUp id p q r k =
      let performed : (p : Place D M) → perform_stage D M p ≡ (r, q) → CleanedUp q = λ p.
        stage-CleanedUp (perform_app_action_service D M) (clean_up D M) p q r k
          (λ p4 h. record { before = p4; result = r; cleans = h }) in
      let defined : (p : Place D M) → define_stage D M p ≡ (r, q) → CleanedUp q = λ p.
        stage-CleanedUp (define_app_action_service D M) (perform_stage D M) p q r k performed in
      stage-CleanedUp (boot_services_and_chain D M id) (path_stage D M) p q r k
        (λ p. stage-CleanedUp (set_path D M) (define_stage D M) p q r k defined)
