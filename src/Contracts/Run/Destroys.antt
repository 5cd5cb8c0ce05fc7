-- ===== src/Contracts/Run/Destroys.antt =====
-- What the clean up removes after the boot of a throwaway chain has failed.
use eris_cli.Base.{◌≡◌, refl, sym, ◌∙◌, ap, inl, inr, Option, [], ◌++◌}
use eris_cli.Strings.{Text, codes}
use eris_cli.Definitions.Do.{Do}
use eris_cli.Docker.{DockerClient}
use eris_cli.Command.{Failure, returns, fails, Command, ◌>>=◌, ◌>>◌}
use eris_cli.Command.Steps.{follow-fails, follow-returns}
use eris_cli.Command.Machine.{Machine, Site, reading, try_file, in_world}
use eris_cli.Chains.Setup.{setup_path, clear_old_data, setup_chain, eris_chain_new}
use eris_cli.Contracts.Booting.{
  Run, using, throwaway_request, set_thrown_path, mark_run, name_chain, start_thrown,
  boot_throw_away_chain,
}
use eris_cli.Contracts.CleanUp.{kill_throwaway, remove_chain_files, destroy_chain}

-- The same chain in both runs.
abbrev SameChain : Run → Run → Type 0
SameChain p q = (q.chain_name ≡ p.chain_name) × (q.chain_type ≡ p.chain_type)

module _ {S : Type 0} where
  abbrev KeepsChain : {A : Type 0} → Command (Run × S) A → Type 0
  KeepsChain m = (p : Run) (s : S) → SameChain p (m (p, s)).1.0

  abbrev FailsKeeping : {A : Type 0} → Command (Run × S) A → Type 0
  FailsKeeping m =
      (p q : Run) (s t : S) (e : Failure) → m (p, s) ≡ (fails e, (q, t)) → SameChain p q

  bind-FailsKeeping :
      {A B : Type 0} (m : Command (Run × S) A) (f : A → Command (Run × S) B)
      → KeepsChain m
      → ((a : A) → FailsKeeping (f a))
      → FailsKeeping (m >>= f)
  bind-FailsKeeping m f keeps rest p q s t e h =
      let ran = m (p, s) in
      let (name, typ) = keeps p s in
      elim (follow-fails ran.0 f ran.1 (q, t) e h) [
        | inr (_, left) ↦
            let run = ap (λ u. u.0) left in
            (ap (λ r. r.chain_name) (sym run) ∙ name, ap (λ r. r.chain_type) (sym run) ∙ typ)
        | inl (a, _, last) ↦
            let (name2, typ2) = rest a ran.1.0 q ran.1.1 t e last in (name2 ∙ name, typ2 ∙ typ)
      ]

module _ (D : DockerClient) (M : Machine D) where
  open M use {join, chains_path, data_path}

  -- The end of the boot, from each of its steps on.
  abbrev from_start : Do → Command (Run × Site D M) (Unit {0})
  from_start thrown = using (λ run. start_thrown D M thrown) >>= name_chain

  abbrev from_mark : Do → Command (Run × Site D M) (Unit {0})
  from_mark thrown = mark_run >> from_start thrown

  abbrev from_setup : Do → Command (Run × Site D M) (Unit {0})
  from_setup thrown = using (λ run. setup_chain D M thrown eris_chain_new) >> from_mark thrown

  abbrev with_path : Do → Option Text → Command (Run × Site D M) (Unit {0})
  with_path thrown path = set_thrown_path thrown path >> from_setup thrown

  abbrev from_path : Do → Command (Run × Site D M) (Unit {0})
  from_path thrown = using (λ run. reading (setup_path D M thrown)) >>= with_path thrown

  from_setup-FailsKeeping : (thrown : Do) → FailsKeeping (from_setup thrown)
  unfolding using
  from_setup-FailsKeeping thrown =
      let named : (left : Text) → FailsKeeping (name_chain left) =
        λ left p q s t e h. absurd (cc h) in
      let started : FailsKeeping (from_start thrown) =
        bind-FailsKeeping (using (λ run. start_thrown D M thrown)) name_chain (λ p s. (refl, refl))
          named in
      bind-FailsKeeping (using (λ run. setup_chain D M thrown eris_chain_new))
        (λ _. from_mark thrown) (λ p s. (refl, refl))
        (λ u.
          bind-FailsKeeping mark_run (λ _. from_start thrown) (λ p s. (refl, refl)) (λ u. started))

  from_path-FailsKeeping : (thrown : Do) → FailsKeeping (from_path thrown)
  unfolding using
  from_path-FailsKeeping thrown =
      bind-FailsKeeping (using (λ run. reading (setup_path D M thrown))) (with_path thrown)
        (λ p s. (refl, refl))
        (λ path.
          bind-FailsKeeping (set_thrown_path thrown path) (λ _. from_setup thrown)
            (λ p s. (refl, refl)) (λ u. from_setup-FailsKeeping thrown))

  boot_throw_away_chain-unnamed :
      (id name : Text) (p q : Run) (s t : Site D M) (e : Failure)
      → boot_throw_away_chain D M id name (p, s) ≡ (fails e, (q, t))
      → (q.chain_name ≡ p.chain_name) × (q.chain_type ≡ codes "throwaway")
  unfolding boot_throw_away_chain using
  boot_throw_away_chain-unnamed id name p q s t e h =
      let thrown = throwaway_request D M id name p.asked in
      bind-FailsKeeping (using (λ run. clear_old_data D M thrown)) (λ _. from_path thrown)
        (λ p s. (refl, refl)) (λ u. from_path-FailsKeeping thrown)
        (record p { chain_type = codes "throwaway" }) q s t e h

  kill_throwaway-files :
      (run : Run) (s : D.State) (f : M.Files) → (kill_throwaway D M run (s, f)).1.1 ≡ f
  unfolding kill_throwaway in_world
  kill_throwaway-files run s f = refl

  destroy_chain-files :
      (run : Run) (s t : D.State) (f g : M.Files)
      → destroy_chain D M run (s, f) ≡ (returns tt, (t, g))
      → g
        ≡ (M.remove
            (join chains_path (run.chain_name ++ codes ".toml"))
            (M.remove_all (join data_path run.chain_name) f).1).1
  unfolding destroy_chain remove_chain_files try_file
  destroy_chain-files run s t f g h =
      let killed = kill_throwaway D M run (s, f) in
      let (u, e, rest) =
        follow-returns killed.0 (λ _. remove_chain_files D M run) killed.1 (t, g) tt h in
      ap (λ p. p.1.1) (sym rest)
      ∙ ap
          (λ k.
            (M.remove (join chains_path (run.chain_name ++ codes ".toml"))
              (M.remove_all (join data_path run.chain_name) k).1).1)
          (kill_throwaway-files run s f)

  -- If the boot of a throwaway chain fails in a run that has no chain yet, and the chain is then
  -- destroyed, as the clean up does, from any state, and that returns: the whole directory of data was
  -- removed, where the empty name adds nothing to a path.
  pub failed_boot-destroys :
      (id name : Text) (p q : Run) (s u : Site D M) (e : Failure) (t t' : D.State) (f g : M.Files)
      → join data_path [] ≡ data_path
      → p.chain_name ≡ []
      → boot_throw_away_chain D M id name (p, s) ≡ (fails e, (q, u))
      → destroy_chain D M q (t, f) ≡ (returns tt, (t', g))
      → (q.chain_type ≡ codes "throwaway")
        × (g ≡ (M.remove (join chains_path (codes ".toml")) (M.remove_all data_path f).1).1)
  failed_boot-destroys id name p q s u e t t' f g joins none_yet failed destroyed =
      let (same, typ) = boot_throw_away_chain-unnamed id name p q s u e failed in
      (
        typ,
        destroy_chain-files q t t' f g destroyed
            ∙ ap
                (λ n.
                  (M.remove (join chains_path (n ++ codes ".toml"))
                    (M.remove_all (join data_path n) f).1).1)
                (same ∙ none_yet)
            ∙ ap (λ d. (M.remove (join chains_path (codes ".toml")) (M.remove_all d f).1).1) joins,
      )
