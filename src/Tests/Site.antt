-- ===== src/Tests/Site.antt =====
-- A machine in memory: the daemon, and the files as a list of their paths.
use eris_cli.Base.{Bool, true, none, some, List, [], ◌∷◌, ◌++◌, if◌then◌else◌}
use eris_cli.Strings.{Text, codes, text_eq, has_prefix}
use eris_cli.Files.{is_listed}
use eris_cli.Command.Machine.{Machine}
use eris_cli.Tests.Daemon.{memory}
use eris_cli.Tests.World.{world}

abbrev pub below : Text → List Text → List Text
below dir [] = []
below dir (file ∷ files) =
    let rest = below dir files in if has_prefix file dir then file ∷ rest else rest

abbrev pub besides : (Text → Bool) → List Text → List Text
besides gone [] = []
besides gone (file ∷ files) =
    let rest = besides gone files in if gone file then rest else file ∷ rest

abbrev pub join_path : Text → Text → Text
join_path dir [] = dir
join_path dir (c ∷ file) = dir ++ (codes "/" ++ c ∷ file)

-- All files have the extension `.toml`.
abbrev pub glob_files : List Text → Text → Text → List Text
glob_files files typ pattern =
    if text_eq pattern (codes "*.toml") then below (typ ++ codes "/") files else []

abbrev pub machine : Machine memory
machine = record {
  Files = List Text;
  world = λ files. world;
  glob = glob_files;
  exists = is_listed;
  is_dir = is_listed;
  working_dir = λ files. some (codes "home");
  files_in = below;
  write_service = λ file def files. (true, file ∷ files);
  write_chain = λ file chain files. (true, file ∷ files);
  remove = λ file files. (is_listed file files, besides (λ other. text_eq other file) files);
  remove_all = λ dir files. (true, besides (λ file. has_prefix file dir) files);
  make_dirs = λ dir files. (true, dir ∷ files);
  copy = λ from to files. (is_listed from files, to ∷ files);
  temp_dir = λ name files. (some (codes "tmp"), files);
  Archive = Unit {0};
  tar = λ dir files. some tt;
  untar = λ archive name dir files. (true, files);
  upload = λ id dir archive s. (true, s);
  download = λ id dir s. none;
  get_from_ipfs = λ hash file files. (true, file ∷ files);
  send_to_ipfs = λ file files. some (codes "Qm");
  join = join_path;
  services_path = codes "services";
  chains_path = codes "chains";
  data_path = codes "data";
}
