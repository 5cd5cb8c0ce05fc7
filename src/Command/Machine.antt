-- ===== src/Command/Machine.antt =====
-- The machine that the program runs on: the daemon and the files. The calls of Go's package `os`, of
-- the encoders, the archiver and IPFS are parameters, and so are the calls that move an archive into a
-- container and out of it.
use eris_cli.Base.{Bool, true, false, Option, List, [], ◌∷◌, ◌++◌, ◌==◌, if◌then◌else◌}
use eris_cli.Strings.{Text, codes, text_eq, replace_first}
use eris_cli.Definitions.{ServiceDefinition, Chain}
use eris_cli.Docker.{DockerClient}
use eris_cli.Command.{Failure, Reply, returns, fails, crashes, waits, unending, Command}
use eris_cli.Command.World.{World}

pub record Machine (D : DockerClient) : Type 1 where
  pub Files : Type 0
  -- what a command reads at a state of the files
  pub world : Files → World D
  -- `filepath.Glob` on a pattern in the directory of a type
  pub glob : Files → Text → Text → List Text
  pub exists : Text → Files → Bool
  pub is_dir : Text → Files → Bool
  pub working_dir : Files → Option Text
  -- the files of a directory, as `filepath.Glob` gives them for `*`
  pub files_in : Text → Files → List Text
  -- `os.Create` with an encoder behind it; whether it succeeds
  pub write_service : Text → ServiceDefinition → Files → Bool × Files
  pub write_chain : Text → Chain → Files → Bool × Files
  pub remove : Text → Files → Bool × Files
  pub remove_all : Text → Files → Bool × Files
  pub make_dirs : Text → Files → Bool × Files
  pub copy : Text → Text → Files → Bool × Files
  pub temp_dir : Text → Files → Option Text × Files
  -- archives: of a directory, into a directory, into a container and out of it
  pub Archive : Type 0
  pub tar : Text → Files → Option Archive
  pub untar : Archive → Text → Text → Files → Bool × Files
  pub upload : Text → Text → Archive → D.State → Bool × D.State
  pub download : Text → Text → D.State → Option Archive
  -- a file from IPFS by its hash, and the hash of a file sent there
  pub get_from_ipfs : Text → Text → Files → Bool × Files
  pub send_to_ipfs : Text → Files → Option Text
  -- `path.Join`
  pub join : Text → Text → Text
  pub services_path : Text
  pub chains_path : Text
  pub data_path : Text

-- `filepath.Ext`: what stands from the last point on, in the last element of the path.
ext_from : Text → Text → Text
ext_from found [] = found
ext_from found (c ∷ s) =
    let next = if c == b'/' then [] else if c == b'.' then c ∷ s else found in ext_from next s

unfoldable pub ext : Text → Text
unfolding ext_from
ext path = ext_from [] path

-- `strings.Replace(name, filepath.Ext(name), "", 1)`
unfoldable pub without_ext : Text → Text
unfolding ext
without_ext name = replace_first name (ext name) []

-- What the two writers of definitions do with a file name that has no extension.
unfoldable pub definition_file : (Text → Text → Text) → Text → Text → Text → Text
unfolding ext
definition_file join dir name file =
    if text_eq (ext file) [] then join dir (name ++ codes ".toml") else file

unfoldable pub with_toml : Text → Text
unfolding ext
with_toml file = if text_eq (ext file) [] then file ++ codes ".toml" else file

-- Where a definition goes: beside the old file, unless the new name has an extension.
unfoldable pub renamed_file : (Text → Text → Text) → Text → Text → Text → Text → Text
unfolding ext
renamed_file join dir old name new_name =
    if text_eq (ext new_name) [] then replace_first old name new_name else join dir new_name

abbrev pub with_error : {A : Type 0} → Failure → Reply A → Reply A
with_error e (fails _) = fails e
with_error e (returns a) = returns a
with_error e crashes = crashes
with_error e waits = waits
with_error e unending = unending

-- Another error in place of that of a command.
unfoldable pub or_fail : {S A : Type 0} → Failure → Command S A → Command S A
or_fail e m s = let (r, t) = m s in (with_error e r, t)

abbrev pub without_error : Reply (Unit {0}) → Reply (Unit {0})
without_error (fails _) = returns tt
without_error (returns u) = returns u
without_error crashes = crashes
without_error waits = waits
without_error unending = unending

-- A command whose error is dropped.
unfoldable pub quietly : {S : Type 0} → Command S (Unit {0}) → Command S (Unit {0})
quietly m s = let (r, t) = m s in (without_error r, t)

module _ {S F A : Type 0} where
  unfoldable pub on_daemon : Command S A → Command (S × F) A
  on_daemon m (s, f) = let (r, t) = m s in (r, (t, f))

  unfoldable pub reading : (F → A) → Command (S × F) A
  reading g (s, f) = (returns (g f), (s, f))

abbrev pub ended_with : Failure → Bool → Reply (Unit {0})
ended_with e true = returns tt
ended_with e false = fails e

module _ {S F : Type 0} where
  -- A file operation whose failure is an error of the command, and one whose failure is dropped.
  unfoldable pub must : Failure → (F → Bool × F) → Command (S × F) (Unit {0})
  must e g (s, f) = let (fine, t) = g f in (ended_with e fine, (s, t))

  unfoldable pub try_file : (F → Bool × F) → Command (S × F) (Unit {0})
  try_file g (s, f) = let (fine, t) = g f in (returns tt, (s, t))

module _ (D : DockerClient) (M : Machine D) where
  abbrev pub Site : Type 0
  Site = D.State × M.Files

  -- A command with what it reads of the files as they are.
  unfoldable pub in_world : {A : Type 0} → (World D → Command D.State A) → Command Site A
  in_world m (s, f) = let (r, t) = m (M.world f) s in (r, (t, f))
