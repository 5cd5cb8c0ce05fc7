-- ===== src/Services/Definitions/Renamed.antt =====
-- What a rename of a service has done when it returns.
use eris_cli.Base.{
  ◌≡◌, refl, sym, ap, subst, inl, inr, Bool, true, false, Bool-cases, some, Option-cases,
}
use eris_cli.Strings.{Text, text_eq}
use eris_cli.Definitions.{Operation, Service, ServiceDefinition}
use eris_cli.Definitions.Do.{Do}
use eris_cli.Docker.{DockerClient}
use eris_cli.Files.{base, parse_known}
use eris_cli.Loaders.Outcome.{loaded}
use eris_cli.Loaders.Service.{load_service_definition}
use eris_cli.Perform.Action.{Session, ok}
use eris_cli.Perform.Rename.{docker_rename}
use eris_cli.Command.{
  Failure, Reply, returns, fails, crashes, waits, unending, perform_error, file_error,
  outcome_reply, fail, give, crash_command, perform_writing,
}
use eris_cli.Command.Steps.{follow-returns, outcome_reply-returns, perform_writing-returns}
use eris_cli.Command.Machine.{
  Machine, Site, ended_with, must, try_file, without_ext, definition_file, renamed_file,
}
use eris_cli.Data.{rename_data}
use eris_cli.Services.Definitions.{
  renamed_definition, replace_file, old_file, rename_definition, rename_loaded, load_asked,
  rename_known, rename_service,
}

ended_with-returns : (e : Failure) (b : Bool) → ended_with e b ≡ returns tt → b ≡ true
ended_with-returns e true h = refl
ended_with-returns e false h = absurd (cc h)

module _ (D : DockerClient) (M : Machine D) where
  open M use {glob, join, services_path}

  -- The request for the rename of the data container.
  abbrev pub data_request : Do → Operation → Do
  data_request asked ops = record asked {
    operations = record asked.operations { container_number = ops.container_number };
  }

  -- The definition was written under its new name, the data container renamed, and then the old file
  -- removed.
  pub record Moved (asked : Do) (def : ServiceDefinition) (srv : Service) (ops : Operation)
      (old : Text) (s t : D.State) (f g : M.Files) : Type 0 where
    pub written : M.Files
    pub writes :
        M.write_service
          (definition_file join services_path
            (without_ext asked.new_name)
            (renamed_file join services_path old asked.name asked.new_name))
          (renamed_definition (without_ext asked.new_name) ops srv def)
          f
        ≡ (true, written)
    pub data_renamed :
        rename_data D (M.world written) (data_request asked def.operations) s ≡ (returns tt, t)
    pub old_removed : g ≡ (M.remove old written).1

  replace_file-Moved :
      (asked : Do) (def : ServiceDefinition) (srv : Service) (ops : Operation) (old : Text)
      (s t : D.State) (f g : M.Files)
      → replace_file D M asked false def srv ops old (s, f) ≡ (returns tt, (t, g))
      → Moved asked def srv ops old s t f g
  unfolding replace_file must try_file eris_cli.Command.Machine.in_world
  replace_file-Moved asked def srv ops old s t f g h =
      let out =
        M.write_service
          (definition_file join services_path (without_ext asked.new_name)
            (renamed_file join services_path old asked.name asked.new_name))
          (renamed_definition (without_ext asked.new_name) ops srv def) f in
      let (u, e, rest) = follow-returns (ended_with file_error out.0) _ (s, out.1) (t, g) tt h in
      let request = data_request asked def.operations in
      let ran = rename_data D (M.world out.1) request s in
      let (v, e2, last) = follow-returns ran.0 _ (ran.1, out.1) (t, g) tt rest in
      record {
        written = out.1;
        writes = ap (λ b. (b, out.1)) (ended_with-returns file_error out.0 e);
        data_renamed = λ i. (e2 i, (last i).1.0);
        old_removed = λ i. sym (ap (λ p. p.1.1) last) i;
      }

  module _ (asked : Do) where
    -- What a rename of a service has done, where its container and file change.
    pub record Renamed (s t : D.State) (f g : M.Files) : Type 0 where
      pub def : ServiceDefinition
      pub srv : Service
      pub known : parse_known (glob f) asked.name ≡ true
      pub loads :
          load_service_definition D
            (M.world f).viper
            (M.world f).sources
            s
            asked.name
            false
            asked.operations.container_number
          ≡ loaded def
      pub service : def.service ≡ some srv
      pub session : Session D
      pub container_renamed :
          docker_rename D
            (M.world f).env
            asked.new_name
            (record { daemon = s; srv = srv; ops = def.operations })
          ≡ (ok tt, session)
      pub moved : Moved asked def srv session.ops (old_file D M asked f) session.daemon t f g

    rename_definition-Moved :
        (def : ServiceDefinition) (srv : Service) (ops : Operation) (s t : D.State) (f g : M.Files)
        → text_eq (base (old_file D M asked f)) asked.new_name ≡ false
        → rename_definition D M asked false def srv ops (s, f) ≡ (returns tt, (t, g))
        → Moved asked def srv ops (old_file D M asked f) s t f g
    unfolding rename_definition
    rename_definition-Moved def srv ops s t f g other h =
        replace_file-Moved asked def srv ops (old_file D M asked f) s t f g
          (rw (other, rename_definition) at h)

    rename_loaded-Renamed :
        (def : ServiceDefinition) (s t : D.State) (f g : M.Files)
        → parse_known (glob f) asked.name ≡ true
        → load_service_definition D
            (M.world f).viper
            (M.world f).sources
            s
            asked.name
            false
            asked.operations.container_number
          ≡ loaded def
        → text_eq (without_ext asked.new_name) asked.name ≡ false
        → text_eq (base (old_file D M asked f)) asked.new_name ≡ false
        → rename_loaded D M asked def (s, f) ≡ (returns tt, (t, g))
        → Renamed s t f g
    unfolding rename_loaded crash_command perform_writing give eris_cli.Command.Machine.in_world
    rename_loaded-Renamed def s t f g known loads differs other h =
        elim (Option-cases def.service) [
          | inl missing ↦ absurd (cc (rw (missing, rename_loaded, crash_command) at h))
          | inr (srv, found) ↦
              let h' = rw (found, differs, rename_loaded) at h in
              let action = docker_rename D (M.world f).env asked.new_name in
              let ran = perform_writing D perform_error action srv def.operations s in
              let (ops, e, rest) = follow-returns ran.0 _ (ran.1, f) (t, g) tt h' in
              let (u, renamed, written, left) =
                perform_writing-returns D perform_error action srv def.operations ops s ran.1
                  (ap (λ r. (r, ran.1)) e) in
              let moved = rename_definition-Moved def srv ops ran.1 t f g other rest in
              record {
                def = def;
                srv = srv;
                known = known;
                loads = loads;
                service = found;
                session = u;
                container_renamed = renamed;
                moved =
                    subst
                      (λ (p : Operation × D.State).
                        Moved asked def srv p.0 (old_file D M asked f) p.1 t f g)
                      (λ i. (sym written i, sym left i)) moved;
              }
        ]

    -- If a rename of a service to a name that is no other type of the same file returns, and the file
    -- has another name: the service was known and its definition loaded, its container was renamed,
    -- the definition was written under the new name, the data container was renamed after that, and
    -- the old file removed last.
    pub rename_service-Renamed :
        (s t : D.State) (f g : M.Files)
        → text_eq (without_ext asked.new_name) asked.name ≡ false
        → text_eq (base (old_file D M asked f)) asked.new_name ≡ false
        → rename_service D M asked (s, f) ≡ (returns tt, (t, g))
        → Renamed s t f g
    unfolding rename_service rename_known fail eris_cli.Command.load
        eris_cli.Command.Machine.reading eris_cli.Command.Machine.in_world load_asked
    rename_service-Renamed s t f g differs other h =
        elim (Bool-cases (text_eq asked.name asked.new_name)) [
          | inl same ↦ absurd (cc (rw (same, rename_service, fail) at h))
          | inr new ↦ elim (Bool-cases (parse_known (glob f) asked.name)) [
            | inr unknown ↦ absurd (cc (rw (new, unknown, rename_service, fail) at h))
            | inl known ↦
                let h' : rename_known D M asked (s, f) ≡ (returns tt, (t, g)) =
                  rw (new, known, rename_service) at h in
                let out =
                  load_service_definition D (M.world f).viper (M.world f).sources s asked.name false
                    asked.operations.container_number in
                let (def, e, rest) =
                  follow-returns (outcome_reply out) (rename_loaded D M asked) (s, f) (t, g) tt
                    h' in
                rename_loaded-Renamed def s t f g known (outcome_reply-returns out def e) differs
                  other rest
          ]
        ]
