-- ===== src/Services/Definitions.antt =====
-- The commands of services/manage.go that work on definition files: new, rename, import, export, cat
-- and the removal of files; and `EnsureRunning` of services/load.go.

pub mod Renamed
pub mod Kept
pub mod Misplaced
use eris_cli.Base.{Bool, true, false, Option, none, some, List, [], ◌∷◌, ◌++◌, if◌then◌else◌}
use eris_cli.Strings.{Text, codes, text_eq, split}
use eris_cli.Base.Int.{pos}
use eris_cli.Definitions.{
  Operation, Service, ServiceDefinition, blank_service, blank_service_definition,
}
use eris_cli.Definitions.Do.{Do, now_do}
use eris_cli.Docker.{DockerClient}
use eris_cli.Files.{base, file_root, first_or, config_files, get_file_by_name_and_type, parse_known}
use eris_cli.Loaders.Service.{load_service_definition}
use eris_cli.Perform.Rename.{docker_rename}
use eris_cli.Command.{
  returns, perform_error, same_name, unknown_service, not_running, file_error, network_error,
  improper_file, Command, give, fail, crash_command, load, query, ◌>>=◌, ◌>>◌, perform_writing,
}
use eris_cli.Command.World.{World}
use eris_cli.Command.Machine.{
  Machine, Site, without_ext, definition_file, renamed_file, with_toml, or_fail, reading, must,
  try_file, in_world,
}
use eris_cli.Data.{rename_data}
use eris_cli.Services.{is_service_running}
use eris_cli.Services.Manage.{rm_service_container}

module _ (D : DockerClient) (w : World D) where
  open w use {viper, sources}

  unfoldable pub ensure_running : Do → Command D.State (Unit {0})
  ensure_running asked = do
    def ← load (λ s.
        load_service_definition D viper sources s asked.name false
          asked.operations.container_number)
    elim def.service [
      | none ↦ crash_command
      | some srv ↦ do
        (running, _) ← query (λ s. is_service_running D s srv def.operations)
        if running then give tt else fail (not_running asked.name)
    ]

-- The definition that `NewService` writes; `do.Operations.Args[0]` is the image.
unfoldable pub new_definition : Text → Text → ServiceDefinition
new_definition name image = record blank_service_definition {
  name = name;
  service = some (record blank_service { name = name; image = image; auto_data = true });
}

-- The definition under its new name.
unfoldable pub renamed_definition :
    Text → Operation → Service → ServiceDefinition → ServiceDefinition
renamed_definition new ops srv def = record def {
  name = new;
  service = some (record srv { name = new });
  operations = ops;
}

module _ (D : DockerClient) (M : Machine D) where
  open M use {glob, join, services_path}

  -- `WriteServiceDefinitionFile`
  unfoldable pub write_service_definition_file :
      ServiceDefinition → Service → Text → Command (Site D M) (Unit {0})
  unfolding definition_file
  write_service_definition_file def srv file =
      must file_error (M.write_service (definition_file join services_path srv.name file) def)

  unfoldable pub new_service : Do → Command (Site D M) (Unit {0})
  unfolding new_definition write_service_definition_file
  new_service asked = elim asked.operations.args [
    | [] ↦ crash_command
    | image ∷ args ↦
        write_service_definition_file (new_definition asked.name image)
          (record blank_service { name = asked.name })
          (join services_path (asked.name ++ codes ".toml"))
  ]

  -- The container is renamed unless only the type of the file changes.
  unfoldable pub rename_container : Do → Bool → Service → Operation → Command (Site D M) Operation
  rename_container asked transform_only srv ops =
      if transform_only
      then give ops
      else in_world D M
          (λ w. perform_writing D perform_error (docker_rename D w.env asked.new_name) srv ops)

  unfoldable pub rename_its_data : Do → Bool → Operation → Command (Site D M) (Unit {0})
  rename_its_data asked transform_only ops =
      if transform_only
      then give tt
      else in_world D M (λ w. rename_data D w (record asked {
        operations = record asked.operations { container_number = ops.container_number };
      }))

  -- What follows the rename of the container, where the file is another one.
  unfoldable pub replace_file :
      Do → Bool → ServiceDefinition → Service → Operation → Text → Command (Site D M) (Unit {0})
  unfolding write_service_definition_file rename_its_data renamed_file renamed_definition
      without_ext
  replace_file asked transform_only def srv ops old = do
    let new = without_ext asked.new_name
    write_service_definition_file (renamed_definition new ops srv def) (record srv { name = new })
        (renamed_file join services_path old asked.name asked.new_name)
    rename_its_data asked transform_only def.operations
    try_file (M.remove old)

  unfoldable pub old_file : Do → M.Files → Text
  old_file asked f = get_file_by_name_and_type (glob f) (codes "services") asked.name

  unfoldable pub rename_definition :
      Do → Bool → ServiceDefinition → Service → Operation → Command (Site D M) (Unit {0})
  unfolding replace_file
  rename_definition asked transform_only def srv ops (s, f) =
      let old = old_file asked f in
      if text_eq (base old) asked.new_name
      then (returns tt, (s, f))
      else replace_file asked transform_only def srv ops old (s, f)

  unfoldable pub rename_loaded : Do → ServiceDefinition → Command (Site D M) (Unit {0})
  unfolding rename_container rename_definition
  rename_loaded asked def = elim def.service [
    | none ↦ crash_command
    | some srv ↦ do
      let transform_only = text_eq (without_ext asked.new_name) asked.name
      ops ← rename_container asked transform_only srv def.operations
      rename_definition asked transform_only def srv ops
  ]

  unfoldable pub load_asked : Do → Command (Site D M) ServiceDefinition
  load_asked asked = in_world D M (λ w. load (λ s.
      load_service_definition D w.viper w.sources s asked.name false
        asked.operations.container_number))

  unfoldable pub rename_known : Do → Command (Site D M) (Unit {0})
  unfolding load_asked rename_loaded
  rename_known asked = do def ← load_asked asked; rename_loaded asked def

  unfoldable pub rename_service : Do → Command (Site D M) (Unit {0})
  unfolding rename_known
  rename_service asked = if text_eq asked.name asked.new_name then fail same_name else (do
    known ← reading (λ f. parse_known (glob f) asked.name)
    if known then rename_known asked else fail (unknown_service asked.name))

  -- The hash is `do.Hash`. A definition that does not load is reported as badly formatted.
  unfoldable pub import_service : Do → Text → Command (Site D M) (Unit {0})
  unfolding with_toml load_asked
  import_service asked hash = do
    let file = with_toml (join services_path asked.name)
    let unnumbered = record asked {
      operations = record asked.operations { container_number = pos 0 };
    }
    must network_error (M.get_from_ipfs hash file)
    or_fail improper_file (do load_asked unnumbered; give tt)

  -- `exportFile`; the hash is the result.
  unfoldable pub export_file : Text → Command (Site D M) Text
  export_file name = do
    found ← reading (λ f. get_file_by_name_and_type (glob f) (codes "services") name)
    let file = join services_path (found ++ codes ".toml")
    sent ← reading (M.send_to_ipfs file)
    elim sent [ none ↦ give [] | some hash ↦ give hash ]

  -- The error of the export is dropped: the result is then empty.
  unfoldable pub export_service : Do → Command (Site D M) Text
  unfolding export_file ensure_running
  export_service asked = do
    known ← reading (λ f. parse_known (glob f) asked.name)
    if known
        then (do
          in_world D M (λ w. ensure_running D w (record now_do { name = codes "ipfs" }))
          export_file asked.name)
        else fail (unknown_service asked.name)

  unfoldable pub rm_definition : Bool → Text → Command (Site D M) (Unit {0})
  rm_definition file name =
      if file
      then (do
        old ← reading (λ f. get_file_by_name_and_type (glob f) (codes "services") name)
        must file_error (M.remove (join services_path old ++ codes ".toml")))
      else give tt

  unfoldable pub rm_service : Do → List Text → Command (Site D M) (Unit {0})
  unfolding rm_definition
  rm_service asked [] = give tt
  rm_service asked (name ∷ names) = do
    in_world D M (λ w. rm_service_container D w asked name)
    rm_definition asked.file name
    rm_service asked names
