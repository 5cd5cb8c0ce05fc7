-- ===== src/Files.antt =====
-- Known definition files (`GetGlobalLevelConfigFilesByType` and `GetFileByNameAndType` of
-- util/paths_and_fileops.go, and the `parseKnown` loops). `glob` stands for `filepath.Glob` on a
-- pattern in the directory of a type: what the file system answers.
use eris_cli.Base.{Bool, true, false, ◌||◌, List, [], ◌∷◌, ◌++◌, map, if◌then◌else◌}
use eris_cli.Strings.{Text, codes, text_eq, split, last_or}

abbrev pub first_or {ℓ} : {A : Type ℓ} → A → List A → A
first_or d [] = d
first_or d (x ∷ xs) = x

drop_empty : List Text → List Text
drop_empty [] = []
drop_empty ([] ∷ ps) = drop_empty ps
drop_empty ((c ∷ p) ∷ ps) = (c ∷ p) ∷ drop_empty ps

-- `filepath.Base(path)`: the last element; slashes at the end do not count.
unfoldable pub base : Text → Text
unfolding drop_empty
base [] = codes "."
base (c ∷ s) = last_or (codes "/") (drop_empty (split (c ∷ s) b'/'))

-- "quick and dirty file root"
unfoldable pub file_root : Text → Text
unfolding base
file_root file = first_or [] (split (base file) b'.')

-- `for _, srv := range known { if srv == name { return true } }`
unfoldable pub is_listed : Text → List Text → Bool
is_listed name [] = false
is_listed name (k ∷ known) = text_eq k name || is_listed name known

find_root : Text → List Text → Text
find_root name [] = []
find_root name (file ∷ files) =
    let rest = find_root name files in if text_eq (file_root file) name then file else rest

module _ (glob : Text → Text → List Text) where
  unfoldable pub config_files : Text → Bool → List Text
  config_files typ with_ext =
      let found =
        glob typ (codes "*.json") ++ (glob typ (codes "*.yaml") ++ glob typ (codes "*.toml")) in
      if with_ext then found else map file_root found

  unfoldable pub get_file_by_name_and_type : Text → Text → Text
  unfolding find_root
  get_file_by_name_and_type typ name = find_root name (config_files typ true)

  unfoldable pub parse_known : Text → Bool
  parse_known name = is_listed name (config_files (codes "services") false)

  unfoldable pub is_known_chain : Text → Bool
  is_known_chain name = is_listed name (config_files (codes "chains") false)
