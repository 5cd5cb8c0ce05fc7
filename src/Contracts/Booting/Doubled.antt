-- ===== src/Contracts/Booting/Doubled.antt =====
-- What is started for a package that names several services.
use eris_cli.Base.{
  ℕ, zero, suc, ◌+◌, ◌≡◌, refl, sym, ◌∙◌, ap, arith, Bool, some, List, [], ◌∷◌, ◌++◌, length,
  if◌then◌else◌,
}
use eris_cli.Base.Int.{ℤ}
use eris_cli.Strings.{Text}
use eris_cli.Definitions.{ServiceDefinition}
use eris_cli.Docker.{DockerClient}
use eris_cli.Loaders.Outcome.{loaded}
use eris_cli.Services.Group.{build_services_group}
use eris_cli.Services.Group.Behind.{build_services_group-behind, behind-loaded}
use eris_cli.Command.{returns, option_reply, load_fuelled, give}
use eris_cli.Command.Steps.{follow-returns, option_reply-returns}
use eris_cli.Command.Machine.{Machine}
use eris_cli.Command.World.{World}
use eris_cli.Contracts.Booting.{build_each}

-- How many definitions pass the test.
abbrev pub count : (ServiceDefinition → Bool) → List ServiceDefinition → ℕ
count p [] = 0
count p (d ∷ ds) = (if p d then 1 else 0) + count p ds

-- A number doubled so many times.
abbrev pub doubled : ℕ → ℕ → ℕ
doubled zero x = x
doubled (suc n) x = doubled n (x + x)

-- What the groups count, where each counts twice for every group behind it.
abbrev pub weighted : (ServiceDefinition → Bool) → List (List ServiceDefinition) → ℕ
weighted p [] = 0
weighted p (g ∷ gs) = doubled (length gs) (count p g) + weighted p gs

count-append :
    (p : ServiceDefinition → Bool) (xs ys : List ServiceDefinition)
    → count p (xs ++ ys) ≡ count p xs + count p ys
count-append p [] ys = omega arith
count-append p (x ∷ xs) ys = omega (arith, count-append p xs ys)

doubled-add : (n x y : ℕ) → doubled n (x + y) ≡ doubled n x + doubled n y
doubled-add zero x y = refl
doubled-add (suc n) x y =
    let halves : (x + y) + (x + y) ≡ (x + x) + (y + y) = omega arith in
    ap (doubled n) halves ∙ doubled-add n (x + x) (y + y)

doubled-nothing : (n : ℕ) → doubled n 0 ≡ 0
doubled-nothing zero = refl
doubled-nothing (suc n) = doubled-nothing n

module _ (D : DockerClient) (M : Machine D) (w : World D) (number : ℤ) where
  -- The groups that the names have when each is built alone.
  abbrev pub BuiltAlone : D.State → List Text → List (List ServiceDefinition) → Type 0
  BuiltAlone s [] [] = Unit
  BuiltAlone s [] (g ∷ gs) = ⊥
  BuiltAlone s (name ∷ names) [] = ⊥
  BuiltAlone s (name ∷ names) (g ∷ gs) =
      (build_services_group D w.viper w.sources s number w.fuel name [] ≡ some (loaded g))
      × BuiltAlone s names gs

  -- The list that is built for the names behind the services.
  record Doubles (names : List Text) (srvs all : List ServiceDefinition) (s t : D.State)
      : Type 0 where
    groups : List (List ServiceDefinition)
    alone : BuiltAlone s names groups
    same : s ≡ t
    counted :
        (p : ServiceDefinition → Bool)
        → count p all ≡ doubled (length groups) (count p srvs) + weighted p groups

  -- The count after one more round of the loop.
  round :
      (p : ServiceDefinition → Bool) (srvs g t all : List ServiceDefinition)
      (gs : List (List ServiceDefinition))
      → t ≡ srvs ++ g
      → count p all ≡ doubled (length gs) (count p (srvs ++ t)) + weighted p gs
      → count p all
        ≡ doubled (suc (length gs)) (count p srvs)
          + (doubled (length gs) (count p g) + weighted p gs)
  round p srvs g t all gs shape h =
      let c = count p srvs in
      let whole : count p (srvs ++ t) ≡ (c + c) + count p g =
        omega (arith, count-append p srvs t, ap (count p) shape ∙ count-append p srvs g) in
      let split : doubled (length gs) (count p (srvs ++ t))
          ≡ doubled (length gs) (c + c) + doubled (length gs) (count p g) =
        ap (doubled (length gs)) whole ∙ doubled-add (length gs) (c + c) (count p g) in
      omega (arith, h, split)

  build_each-Doubles :
      (names : List Text) (srvs all : List ServiceDefinition) (s t : D.State)
      → build_each D M w number names srvs s ≡ (returns all, t)
      → Doubles names srvs all s t
  unfolding build_each load_fuelled give
  build_each-Doubles [] srvs all s t h = record {
    groups = [];
    alone = tt;
    same = ap (λ p. p.1) h;
    counted = λ p. let e : srvs ≡ all = cc h in omega (arith, ap (count p) e);
  }
  build_each-Doubles (name ∷ names) srvs all s t h =
      let o = build_services_group D w.viper w.sources s number w.fuel name srvs in
      let (built, e, rest) = follow-returns (option_reply o) _ s t all h in
      let (g, alone, shape) =
        behind-loaded srvs (build_services_group D w.viper w.sources s number w.fuel name []) built
          (sym (build_services_group-behind D w.viper w.sources s number w.fuel name srvs)
            ∙ option_reply-returns o built e) in
      let later = build_each-Doubles names (srvs ++ built) all s t rest in
      record {
        groups = g ∷ later.groups;
        alone = (alone, later.alone);
        same = later.same;
        counted = λ p. round p srvs g built all later.groups shape (later.counted p);
      }

  -- If the groups of the services of a package are built, each can be built alone, the daemon is left
  -- as it was, and the list to start has every definition as many times as the groups have it, where
  -- each group counts twice for every service that the package names behind it: so the group of the
  -- first of three services is started four times.
  pub build_each-doubled :
      (names : List Text) (all : List ServiceDefinition) (s t : D.State)
      → build_each D M w number names [] s ≡ (returns all, t)
      → (groups : List (List ServiceDefinition)) × BuiltAlone s names groups
        × (s ≡ t)
        × ((p : ServiceDefinition → Bool) → count p all ≡ weighted p groups)
  build_each-doubled names all s t h =
      let r = build_each-Doubles names [] all s t h in
      (
        r.groups,
        r.alone,
        r.same,
        λ p. omega (arith, r.counted p, doubled-nothing (length r.groups)),
      )
