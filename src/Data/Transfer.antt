-- ===== src/Data/Transfer.antt =====
-- `ImportData`, `ExportData` and `moveOutOfDirAndRmDir` of data/operate.go.

pub mod Ends
use eris_cli.Base.{ℕ, zero, suc, Bool, true, none, some, List, [], ◌∷◌, if◌then◌else◌}
use eris_cli.Base.Int.{ℤ, pos}
use eris_cli.Strings.{Text, codes}
use eris_cli.Definitions.{Operation, blank_operation, blank_service}
use eris_cli.Definitions.Do.{Do}
use eris_cli.Docker.{ApiContainer, DockerClient}
use eris_cli.Files.{base}
use eris_cli.Names.{data_containers_name}
use eris_cli.Listing.{parse_containers, is_data_container}
use eris_cli.Labels.{load_data_definition}
use eris_cli.Perform.Data.{docker_create_data, docker_run_data_only}
use eris_cli.Command.{
  perform_error, unknown_data, no_data_container, file_error, network_error, Command, Reply,
  returns, fails, unending, give, fail, crash_command, query, ◌>>=◌, ◌>>◌, perform,
}
use eris_cli.Command.World.{World}
use eris_cli.Command.Machine.{Machine, Site, on_daemon, reading, must, try_file, in_world}
use eris_cli.Data.{pretend_to_be_a_service}

-- The operation that gives the files to the user `eris`.
unfoldable pub chown_operation : Do → Operation
chown_operation asked = record blank_operation {
  data_container_name = data_containers_name asked.name asked.operations.container_number;
  container_type = codes "data";
  container_number = pos 1;
  args = codes "chown" ∷ codes "--recursive" ∷ codes "eris" ∷ asked.destination ∷ [];
}

module _ {S A : Type 0} where
  -- A deferred call whose error is dropped.
  unfoldable pub with_deferred :
      (A → Command S (Unit {0})) → Command S (Unit {0}) → A → Command S (Unit {0})
  with_deferred m after a s =
      let (r, t) = m a s in
      elim r [
        | returns u ↦ (returns u, (after t).1)
        | fails e ↦ (fails e, (after t).1)
        | other ↦ (other, t)
      ]

module _ (D : DockerClient) (M : Machine D) where
  open M use {join, tar, untar, upload, download, files_in, copy, remove, remove_all, make_dirs}

  -- The upload of the archive of `do.Source`, an absolute path: the program changes to it first.
  unfoldable pub send_archive : Do → ApiContainer → Command (Site D M) (Unit {0})
  send_archive asked container (s, f) = elim (tar asked.source f) [
    | none ↦ fail file_error (s, f)
    | some archive ↦
        let (fine, t) = upload container.id asked.destination archive s in
        must network_error (λ g. (fine, g)) (t, f)
  ]

  unfoldable pub own_files : Do → Command (Site D M) (Unit {0})
  unfolding chown_operation
  own_files asked = in_world D M (λ w.
      perform D perform_error (docker_run_data_only D w.env none) blank_service
        (chown_operation asked))

  -- The data container exists.
  unfoldable pub import_into : Do → Command (Site D M) (Unit {0})
  unfolding send_archive own_files
  import_into asked = do
    let srv = pretend_to_be_a_service asked.name asked.operations.container_number
    found ← on_daemon (query (λ s. parse_containers D s srv.operations.srv_container_name true))
    elim found [
      | none ↦ fail no_data_container
      | some container ↦ do send_archive asked container; own_files asked
    ]

  unfoldable pub create_asked : Do → Command (Site D M) (Unit {0})
  create_asked asked = in_world D M (λ w.
      perform D perform_error (docker_create_data D w.env) blank_service
        (load_data_definition w.sources.git_user asked.name asked.operations.container_number))

  -- The fuel bounds the calls of itself, which the source does not bound.
  unfoldable pub import_data : ℕ → Do → Command (Site D M) (Unit {0})
  unfolding import_into create_asked
  import_data zero asked = λ s. (unending, s)
  import_data (suc fuel) asked = do
    known ←
        on_daemon (query (λ s. is_data_container D s asked.name asked.operations.container_number))
    let create = create_asked asked >> import_data fuel asked
    if known then import_into asked else create

  -- The loop drops the errors of its copies.
  unfoldable pub copy_each : Text → List Text → Command (Site D M) (Unit {0})
  copy_each dest [] = give tt
  copy_each dest (file ∷ files) = do
    try_file (copy file (join dest (base file)))
    copy_each dest files

  unfoldable pub move_out_of_dir : Text → Text → Command (Site D M) (Unit {0})
  unfolding copy_each
  move_out_of_dir src dest = do
    files ← reading (files_in src)
    copy_each dest files
    must file_error (remove_all src)

  unfoldable pub ensure_dir : Text → Command (Site D M) (Unit {0})
  ensure_dir dir = do
    there ← reading (M.exists dir)
    if there then give tt else must file_error (make_dirs dir)

  -- What follows the download into the temporary directory. A download that fails ends the program.
  unfoldable pub unpack : Do → Text → Text → Command (Site D M) (Unit {0})
  unfolding move_out_of_dir ensure_dir
  unpack asked id path = do
    archive ← on_daemon (query (download id asked.source))
    elim archive [
      | none ↦ crash_command
      | some packed ↦ do
        must file_error (untar packed asked.name path)
        move_out_of_dir (join path (codes ".eris")) path
        ensure_dir asked.destination
        move_out_of_dir path asked.destination
    ]

  unfoldable pub export_to : Do → Text → Command (Site D M) (Unit {0})
  unfolding unpack
  export_to asked path = do
    let srv = pretend_to_be_a_service asked.name asked.operations.container_number
    found ← on_daemon (query (λ s. parse_containers D s srv.operations.srv_container_name true))
    elim found [ none ↦ fail no_data_container | some container ↦ unpack asked container.id path ]

  -- The temporary directory is removed whatever comes of the export.
  unfoldable pub export_data : Do → Command (Site D M) (Unit {0})
  unfolding export_to with_deferred
  export_data asked = do
    known ←
        on_daemon (query (λ s. is_data_container D s asked.name asked.operations.container_number))
    if known
        then (λ (s, f).
            let (made, g) = M.temp_dir asked.name f in
            elim made [
              | none ↦ (fails file_error, (s, g))
              | some path ↦ with_deferred (export_to asked) (try_file (remove path)) path (s, g)
            ])
        else fail (unknown_data asked.name)
