-- ===== src/Clean/Removals.antt =====
-- What cleaning removes.
use eris_cli.Base.{◌≡◌, ◌↔◌, refl, ◌∙◌, ap, subst, true, false, Bool-cases, inl, inr, List, [], ◌∷◌}
use eris_cli.Strings.{Text}
use eris_cli.Docker.{ApiContainer, DockerClient, Answer, done, failed}
use eris_cli.Clean.{is_eris, by_force, remove_labelled, default_clean}

module _ (D : DockerClient) where
  -- The daemon removes the labelled containers by force, with their volumes, in their order, and keeps
  -- the others.
  pub data Removes : List ApiContainer → D.State → D.State → Type 0 where
    no_more : {s : D.State} → Removes [] s s
    skips :
        {c : ApiContainer} {cs : List ApiContainer} {s t : D.State}
        → is_eris c ≡ false
        → Removes cs s t
        → Removes (c ∷ cs) s t
    removes :
        {c : ApiContainer} {cs : List ApiContainer} {s t u : D.State}
        → is_eris c ≡ true
        → D.remove_container (by_force c) s ≡ (done tt, t)
        → Removes cs t u
        → Removes (c ∷ cs) s u

  after_removal-done :
      (cs : List ApiContainer) (answer : Answer (Unit {0})) (t u : D.State)
      → (elim answer as (λ _. Answer (Unit {0}) × D.State) [
        | done _ ↦ remove_labelled D cs t
        | failed e ↦ (failed e, t)
      ])
        ≡ (done tt, u)
      → (answer ≡ done tt) × (remove_labelled D cs t ≡ (done tt, u))
  after_removal-done cs (done v) t u h = (refl, h)
  after_removal-done cs (failed e) t u h = absurd (cc h)

  remove_labelled-Removes :
      (cs : List ApiContainer) (s t : D.State)
      → remove_labelled D cs s ≡ (done tt, t)
      → Removes cs s t
  unfolding remove_labelled
  remove_labelled-Removes [] s t h = subst (λ u. Removes [] s u) (ap (λ p. p.1) h) no_more
  remove_labelled-Removes (c ∷ cs) s t h = elim (Bool-cases (is_eris c)) [
    | inr plain ↦ skips plain (remove_labelled-Removes cs s t (rw (plain, remove_labelled) at h))
    | inl labelled ↦
        let removed = D.remove_container (by_force c) s in
        let (e, rest) =
          after_removal-done cs removed.0 removed.1 t (rw (labelled, remove_labelled) at h) in
        removes labelled (ap (λ a. (a, removed.1)) e) (remove_labelled-Removes cs removed.1 t rest)
  ]

  Removes-remove_labelled :
      (cs : List ApiContainer) (s t : D.State)
      → Removes cs s t
      → remove_labelled D cs s ≡ (done tt, t)
  unfolding remove_labelled
  Removes-remove_labelled [] s t no_more = refl
  Removes-remove_labelled (c ∷ cs) s t (skips plain rest) =
      rw (plain, remove_labelled) (Removes-remove_labelled cs s t rest)
  Removes-remove_labelled (c ∷ cs) s t (removes {t = u} labelled accepted rest) =
      rw (labelled, remove_labelled)
        (ap
            (λ a. elim a.0 as (λ _. Answer (Unit {0}) × D.State) [
              | done _ ↦ remove_labelled D cs a.1
              | failed e ↦ (failed e, a.1)
            ])
            accepted
          ∙ Removes-remove_labelled cs u t rest)

  -- A clean up without a prompt succeeds, and leaves a state, if and only if the daemon removes all
  -- containers with the label of Eris among those that it lists, and no others, and leaves that
  -- state.
  pub default_clean_iff :
      (reply : Text) (cs : List ApiContainer) (s t : D.State)
      → D.list_containers true s ≡ done cs
      → (default_clean D false reply s ≡ (done tt, t)) ↔ Removes cs s t
  unfolding default_clean
  default_clean_iff reply cs s t h =
      rw (h, default_clean) (remove_labelled-Removes cs s t, Removes-remove_labelled cs s t)
