-- ===== src/Dependency.antt =====
-- `ParseDependency` and `FixDirs` of util/container_operations.go, and `PortAndProtocol` of
-- util/container_info.go.
pub mod Laws
use eris_cli.Base.{
  ℕ, Bool, true, false, Option, none, some, List, [], ◌∷◌, ◌++◌, map, length, ◌==◌, if◌then◌else◌,
}
use eris_cli.Strings.{Text, codes, text_eq, split, join, contains, replace_first}
use eris_cli.Files.{first_or}

pub record Dependency : Type 0 where
  pub name : Text
  pub internal_name : Text
  pub link : Bool
  pub mount : Bool

-- The switch on the third part.
abbrev options : Text → Dependency → Dependency
options opt d =
    if text_eq opt (codes "l")
    then record d { link = true; mount = false }
    else if text_eq opt (codes "m")
    then record d { link = false; mount = true }
    else if text_eq opt (codes "v")
    then record d { link = false; mount = true }
    else if text_eq opt (codes "_")
    then record d { link = false; mount = false }
    else d

abbrev internal_or : Text → Text → Text
internal_or name [] = name
internal_or name (c ∷ s) = c ∷ s

parse_parts : List Text → Dependency
parse_parts [] = record { name = []; internal_name = []; link = true; mount = true }
parse_parts (name ∷ []) = record { name = name; internal_name = name; link = true; mount = true }
parse_parts (name ∷ internal ∷ []) = record {
  name = name;
  internal_name = internal_or name internal;
  link = true;
  mount = true;
}
parse_parts (name ∷ internal ∷ opt ∷ rest) =
    options opt
      (record { name = name; internal_name = internal_or name internal; link = true; mount = true })

unfoldable pub parse_dependency : Text → Dependency
unfolding parse_parts
parse_dependency name_and_opts = parse_parts (split name_and_opts b':')

-- One round of the loop, on a platform other than Windows. `eris_root` is the directory of the
-- program's files and `dir` the working directory.
unfoldable pub fix_dir : Text → Text → Text → Text
fix_dir eris_root dir a =
    if contains a (codes "$eris")
    then (let tmp = first_or [] (split a b':') in
        let keep = replace_first a (tmp ++ codes ":") [] in
        join (replace_first tmp (codes "$eris") eris_root ∷ keep ∷ []) (codes ":"))
    else if contains a (codes "$pwd")
    then replace_first a (codes "$pwd") dir
    else a

-- The result, and whether there is an error: the working directory may be unknown.
unfoldable pub fix_dirs : Text → Option Text → List Text → List Text × Bool
unfolding fix_dir
fix_dirs eris_root none arg = ([], true)
fix_dirs eris_root (some dir) arg = (map (fix_dir eris_root dir) arg, false)

unfoldable pub port_and_protocol : Text → Text
port_and_protocol port = if length (split port b'/') == 1 then port ++ codes "/tcp" else port
