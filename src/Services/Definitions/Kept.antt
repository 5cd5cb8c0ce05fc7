-- ===== src/Services/Definitions/Kept.antt =====
-- What a rename of a service has left when it fails.
use eris_cli.Base.{
  ◌≡◌, refl, sym, ap, subst, ◌∙◌, ◌⊎◌, inl, inr, Bool, true, false, Bool-cases, Option-cases,
}
use eris_cli.Strings.{Text, text_eq}
use eris_cli.Definitions.{Operation, Service, ServiceDefinition}
use eris_cli.Definitions.Do.{Do}
use eris_cli.Docker.{DockerClient}
use eris_cli.Files.{base, parse_known}
use eris_cli.Loaders.Service.{load_service_definition}
use eris_cli.Command.{
  Failure, Reply, returns, fails, crashes, waits, unending, perform_error, file_error,
  outcome_reply, fail, give, crash_command, perform_writing,
}
use eris_cli.Command.Steps.{follow-fails}
use eris_cli.Command.Machine.{
  Machine, Site, ended_with, must, try_file, without_ext, definition_file, renamed_file,
}
use eris_cli.Services.Definitions.{
  renamed_definition, rename_container, rename_its_data, replace_file, old_file, rename_definition,
  rename_loaded, load_asked, rename_known, rename_service,
}

module _ (D : DockerClient) (M : Machine D) (asked : Do) where
  open M use {glob, join, services_path}

  -- The files as they were, or with a definition written besides; the old file is there in both.
  abbrev pub Kept : M.Files → M.Files → Type 0
  Kept f g =
      (g ≡ f) ⊎ ((file : Text) × (def : ServiceDefinition) × (g ≡ (M.write_service file def f).1))

  its_data-files :
      (only : Bool) (ops : Operation) (s : D.State) (f : M.Files)
      → (rename_its_data D M asked only ops (s, f)).1.1 ≡ f
  unfolding rename_its_data give eris_cli.Command.Machine.in_world
  its_data-files true ops s f = refl
  its_data-files false ops s f = refl

  replace_file-Kept :
      (only : Bool) (def : ServiceDefinition) (srv : Service) (ops : Operation) (old : Text)
      (e : Failure) (s t : D.State) (f g : M.Files)
      → replace_file D M asked only def srv ops old (s, f) ≡ (fails e, (t, g))
      → Kept f g
  unfolding replace_file rename_its_data must try_file give eris_cli.Command.Machine.in_world
  replace_file-Kept only def srv ops old e s t f g h =
      let file =
        definition_file join services_path (without_ext asked.new_name)
          (renamed_file join services_path old asked.name asked.new_name) in
      let new = renamed_definition (without_ext asked.new_name) ops srv def in
      let out = M.write_service file new f in
      let second = rename_its_data D M asked only def.operations (s, out.1) in
      inr (
        file,
        new,
        elim (follow-fails (ended_with file_error out.0) _ (s, out.1) (t, g) e h) [
          | inr (_, left) ↦ sym (ap (λ p. p.1) left)
          | inl (u, _, rest) ↦ elim (follow-fails second.0 _ second.1 (t, g) e rest) [
            | inl (v, _, last) ↦ absurd (cc last)
            | inr (_, left) ↦ sym (ap (λ p. p.1) left) ∙ its_data-files only def.operations s out.1
          ]
        ],
      )

  rename_definition-Kept :
      (only : Bool) (def : ServiceDefinition) (srv : Service) (ops : Operation) (e : Failure)
      (s t : D.State) (f g : M.Files)
      → rename_definition D M asked only def srv ops (s, f) ≡ (fails e, (t, g))
      → Kept f g
  unfolding rename_definition
  rename_definition-Kept only def srv ops e s t f g h =
      elim (Bool-cases (text_eq (base (old_file D M asked f)) asked.new_name)) [
        | inl same ↦ absurd (cc (rw (same, rename_definition) at h))
        | inr other ↦
            replace_file-Kept only def srv ops (old_file D M asked f) e s t f g
              (rw (other, rename_definition) at h)
      ]

  container-files :
      (only : Bool) (srv : Service) (ops : Operation) (s : D.State) (f : M.Files)
      → (rename_container D M asked only srv ops (s, f)).1.1 ≡ f
  unfolding rename_container give eris_cli.Command.Machine.in_world
  container-files true srv ops s f = refl
  container-files false srv ops s f = refl

  rename_loaded-Kept :
      (def : ServiceDefinition) (e : Failure) (s t : D.State) (f g : M.Files)
      → rename_loaded D M asked def (s, f) ≡ (fails e, (t, g))
      → Kept f g
  unfolding rename_loaded crash_command
  rename_loaded-Kept def e s t f g h = elim (Option-cases def.service) [
    | inl missing ↦ absurd (cc (rw (missing, rename_loaded, crash_command) at h))
    | inr (srv, found) ↦
        let only = text_eq (without_ext asked.new_name) asked.name in
        let first = rename_container D M asked only srv def.operations (s, f) in
        let files = container-files only srv def.operations s f in
        elim (follow-fails first.0 _ first.1 (t, g) e (rw (found, rename_loaded) at h)) [
          | inr (_, left) ↦ inl (sym (ap (λ p. p.1) left) ∙ files)
          | inl (ops, _, rest) ↦
              subst (λ k. Kept k g) files
                (rename_definition-Kept only def srv ops e first.1.0 t first.1.1 g rest)
        ]
  ]

  -- If a rename of a service fails, at whichever step, the old definition file has not been removed:
  -- the files are as they were, or only a definition was written.
  pub rename_service-Kept :
      (e : Failure) (s t : D.State) (f g : M.Files)
      → rename_service D M asked (s, f) ≡ (fails e, (t, g))
      → Kept f g
  unfolding rename_service rename_known fail eris_cli.Command.load eris_cli.Command.Machine.reading
      eris_cli.Command.Machine.in_world load_asked
  rename_service-Kept e s t f g h = elim (Bool-cases (text_eq asked.name asked.new_name)) [
    | inl same ↦ inl (cc (rw (same, rename_service, fail) at h))
    | inr new ↦ elim (Bool-cases (parse_known (glob f) asked.name)) [
      | inr unknown ↦ inl (cc (rw (new, unknown, rename_service, fail) at h))
      | inl known ↦
          let h' : rename_known D M asked (s, f) ≡ (fails e, (t, g)) =
            rw (new, known, rename_service) at h in
          let out =
            load_service_definition D (M.world f).viper (M.world f).sources s asked.name false
              asked.operations.container_number in
          elim (follow-fails (outcome_reply out) (rename_loaded D M asked) (s, f) (t, g) e h') [
            | inr (_, left) ↦ inl (sym (ap (λ p. p.1) left))
            | inl (def, _, rest) ↦ rename_loaded-Kept def e s t f g rest
          ]
    ]
  ]
