-- ===== src/Tests/Disk.antt =====
-- A file system in memory, which keeps the paths of its files.
use eris_cli.Base.{
  refl, Bool, true, false, ◌||◌, none, some, List, [], ◌∷◌, ◌++◌, map, if◌then◌else◌,
}
use eris_cli.Strings.{Text, codes, text_eq, has_prefix, strip_prefix}
use eris_cli.Migrate.{FileSystem, check_file_names_and_migrate}
use eris_cli.Migrate.Moves.{Merged, check_file_names_and_migrate-Merged}

abbrev in_dir : Text → Text
in_dir dir = dir ++ codes "/"

abbrev names_in : Text → List Text → List Text
names_in dir [] = []
names_in dir (p ∷ ps) = elim (strip_prefix (in_dir dir) p) [
  | none ↦ names_in dir ps
  | some name ↦ name ∷ names_in dir ps
]

abbrev any_in : Text → List Text → Bool
any_in dir [] = false
any_in dir (p ∷ ps) = has_prefix p (in_dir dir) || any_in dir ps

abbrev disk : FileSystem
disk = record {
  State = List Text;
  does_exist = any_in;
  read_dir = λ dir ps. some (names_in dir ps);
  rename = λ from to ps. (true, map (λ p. if text_eq p from then to else p) ps);
  remove = λ dir ps. (true, ps);
  join = λ dir name. in_dir dir ++ name;
}

abbrev before : List Text
before = codes "old/a.toml" ∷ codes "new/b.toml" ∷ codes "old/c.toml" ∷ []

abbrev after : List Text
after = codes "new/a.toml" ∷ codes "new/b.toml" ∷ codes "new/c.toml" ∷ []

check_file_names_and_migrate-Merged_example : Merged disk (codes "old") (codes "new") before after
unfolding check_file_names_and_migrate strip_prefix eris_cli.Files.is_listed text_eq
check_file_names_and_migrate-Merged_example =
    check_file_names_and_migrate-Merged disk (codes "old") (codes "new") before after refl
