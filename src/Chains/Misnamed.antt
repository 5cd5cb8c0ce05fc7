-- ===== src/Chains/Misnamed.antt =====
-- The name that the boot of a chain's dependencies leaves in the request when it fails.
use eris_cli.Base.{◌≡◌, sym, ap, subst, ◌⊎◌, inl, inr, some, List, [], ◌∷◌, ◌++◌}
use eris_cli.Base.Int.{ℤ}
use eris_cli.Strings.{Text}
use eris_cli.Definitions.{Dependencies}
use eris_cli.Docker.{DockerClient}
use eris_cli.Command.{Failure, returns, fails, give, query}
use eris_cli.Command.Steps.{follow-returns, follow-fails}
use eris_cli.Command.Named.{on_named}
use eris_cli.Command.World.{World}
use eris_cli.Chains.Operate.{boot_service, boot_services, check_chains, boot_dependencies}

module _ (D : DockerClient) (w : World D) (number : ℤ) where
  -- The services are booted one after the other.
  pub data Booted : List Text → D.State → D.State → Type 0 where
    nothing : {s : D.State} → Booted [] s s
    next :
        {name : Text} {names : List Text} {s t u : D.State}
        → boot_service D w number name s ≡ (returns tt, t)
        → Booted names t u
        → Booted (name ∷ names) s u

  -- The services before one are booted, and the boot of that one fails.
  pub record StopsAt (left : Text) (names : List Text) (f : Failure) (s t : D.State) : Type 0 where
    pub before : List Text
    pub after : List Text
    pub split : names ≡ before ++ left ∷ after
    pub at : D.State
    pub booted : Booted before s at
    pub failed : boot_service D w number left at ≡ (fails f, t)

  boot_services-Booted :
      (names : List Text) (name left : Text) (s t : D.State)
      → boot_services D w number names (name, s) ≡ (returns tt, (left, t))
      → Booted names s t
  unfolding boot_services give on_named
  boot_services-Booted [] name left s t h = subst (λ u. Booted [] s u) (ap (λ p. p.1.1) h) nothing
  boot_services-Booted (n ∷ names) name left s t h =
      let first = boot_service D w number n s in
      let (u, e, rest) =
        follow-returns first.0 (λ _. boot_services D w number names) (n, first.1) (left, t) tt h in
      next (ap (λ r. (r, first.1)) e) (boot_services-Booted names n left first.1 t rest)

  boot_services-StopsAt :
      (names : List Text) (name left : Text) (f : Failure) (s t : D.State)
      → boot_services D w number names (name, s) ≡ (fails f, (left, t))
      → StopsAt left names f s t
  unfolding boot_services give on_named
  boot_services-StopsAt [] name left f s t h = absurd (cc h)
  boot_services-StopsAt (n ∷ names) name left f s t h =
      let first = boot_service D w number n s in
      elim (follow-fails first.0 (λ _. boot_services D w number names) (n, first.1) (left, t) f h) [
        | inr (e, same) ↦
            let here : n ≡ left = ap (λ p. p.0) same in
            record {
              before = [];
              after = names;
              split = ap (λ m. m ∷ names) here;
              at = s;
              booted = nothing;
              failed =
                  subst (λ m. boot_service D w number m s ≡ (fails f, t)) here
                    (λ i. (e i, (ap (λ p. p.1) same) i));
            }
        | inl (u, e, rest) ↦
            let later = boot_services-StopsAt names n left f first.1 t rest in
            record {
              before = n ∷ later.before;
              after = later.after;
              split = ap (λ ns. n ∷ ns) later.split;
              at = later.at;
              booted = next (ap (λ r. (r, first.1)) e) later.booted;
              failed = later.failed;
            }
      ]

  -- If the boot of the dependencies fails, then either the boot of one of the services failed, and the
  -- request is left with that service's name in place of its own; or all of them were booted, the
  -- request has its own name, and it is the test of the chains that failed.
  pub boot_dependencies-misnames :
      (chain name left : Text) (deps : Dependencies) (f : Failure) (s t : D.State)
      → boot_dependencies D w number chain (some deps) (name, s) ≡ (fails f, (left, t))
      → StopsAt left deps.services f s t
        ⊎ ((u : D.State) × Booted deps.services s u
            × (left ≡ name)
            × (check_chains D w number chain deps.chains u ≡ (fails f, t)))
  unfolding boot_dependencies query on_named
  boot_dependencies-misnames chain name left deps f s t h =
      let first = boot_services D w number deps.services (name, s) in
      elim (follow-fails first.0 _ first.1 (left, t) f h) [
        | inr (e, same) ↦
            inl (boot_services-StopsAt deps.services name left f s t (λ i. (e i, same i)))
        | inl (u, e, rest) ↦
            let all : first ≡ (returns tt, first.1) = ap (λ r. (r, first.1)) e in
            inr (
              first.1.1,
              boot_services-Booted deps.services name first.1.0 s first.1.1 all,
              ap (λ p. p.1.0) (sym rest),
              λ i. ((rest i).0, (rest i).1.1),
            )
      ]
