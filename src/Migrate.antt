-- ===== src/Migrate.antt =====
-- The migration of deprecated directories (util/migrate_dirs.go). The file system is a parameter: Go's
-- package `os` on directories.

pub mod Moves
use eris_cli.Base.{
  Bool, true, false, not, ◌&&◌, ◌||◌, Option, none, some, List, [], ◌∷◌, if◌then◌else◌,
}
use eris_cli.Strings.{Text}
use eris_cli.Dict.{Dict}
use eris_cli.Files.{is_listed}
use eris_cli.Clean.{can_we_remove}

-- A call that may fail says whether it succeeded.
pub record FileSystem : Type 1 where
  pub State : Type 0
  pub does_exist : Text → State → Bool
  pub read_dir : Text → State → Option (List Text)
  pub rename : Text → Text → State → Bool × State
  pub remove : Text → State → Bool × State
  pub join : Text → Text → Text

pub data Migration : Type 0 where
  migrated not_needed no_permission : Migration
  -- the errors, with the directories or files that they name
  neither_exists still_exists conflict : Text → Text → Migration
  system_error : Migration

module _ (F : FileSystem) where
  -- `checkFileNamesAndMigrate` behind the two readings: the files of the deprecated directory are moved
  -- unless the new one has a file of that name.
  unfoldable pub move_files : Text → Text → List Text → List Text → F.State → Migration × F.State
  move_files dep new taken [] s = (migrated, s)
  move_files dep new taken (file ∷ files) s =
      let (fine, t) = F.rename (F.join dep file) (F.join new file) s in
      let rest = move_files dep new taken files t in
      if is_listed file taken
      then (conflict (F.join dep file) (F.join new file), s)
      else if fine
      then rest
      else (system_error, t)

  unfoldable pub check_file_names_and_migrate : Text → Text → F.State → Migration × F.State
  unfolding move_files
  check_file_names_and_migrate dep new s = elim (F.read_dir dep s) [
    | none ↦ (system_error, s)
    | some files ↦ elim (F.read_dir new s) [
      | none ↦ (system_error, s)
      | some taken ↦ move_files dep new taken files s
    ]
  ]

  abbrev pub if_fine : Bool × F.State → Migration × F.State
  if_fine (true, s) = (migrated, s)
  if_fine (false, s) = (system_error, s)

  -- Both directories exist.
  unfoldable pub merge_dirs : Text → Text → F.State → Migration × F.State
  unfolding check_file_names_and_migrate
  merge_dirs dep new s =
      let (r, t) = check_file_names_and_migrate dep new s in
      elim r [ migrated ↦ if_fine (F.remove dep t) | other ↦ (other, t) ]

  -- One round of the loop, up to the last test.
  unfoldable pub migrate_one : Text → Text → F.State → Migration × F.State
  unfolding merge_dirs
  migrate_one dep new s =
      if F.does_exist dep s
      then (if F.does_exist new s then merge_dirs dep new s else if_fine (F.rename dep new s))
      else if F.does_exist new s
      then (conflict dep new, s)
      else (neither_exists dep new, s)

  unfoldable pub migrate : Dict Text → F.State → Migration × F.State
  unfolding migrate_one
  migrate [] s = (migrated, s)
  migrate ((dep, new) ∷ dirs) s =
      let (r, t) = migrate_one dep new s in
      let rest = migrate dirs t in
      elim r [
        | migrated ↦ if F.does_exist dep t then (still_exists dep new, t) else rest
        | other ↦ (other, t)
      ]

  -- `dirCheckMaker`: whether to migrate, which the first entry decides.
  unfoldable pub dir_check_maker : Dict Text → F.State → Bool
  dir_check_maker [] s = true
  dir_check_maker ((dep, new) ∷ dirs) s = not (not (F.does_exist dep s) && F.does_exist new s)

  unfoldable pub migrate_deprecated_dirs : Dict Text → Bool → Text → F.State → Migration × F.State
  unfolding migrate dir_check_maker can_we_remove
  migrate_deprecated_dirs dirs prompt reply s =
      if dir_check_maker dirs s
      then (if not prompt || can_we_remove reply then migrate dirs s else (no_permission, s))
      else (not_needed, s)
