-- ===== src/Contracts/CleanUp.antt =====
-- `CleanUp` of contracts/operate.go: what follows the run of a package.
use eris_cli.Base.{true, false, ◌++◌, if◌then◌else◌}
use eris_cli.Strings.{Text, codes, text_eq}
use eris_cli.Definitions.{blank_service, blank_operation}
use eris_cli.Definitions.Do.{now_do}
use eris_cli.Docker.{DockerClient}
use eris_cli.Perform.Lifecycle.{docker_remove}
use eris_cli.Command.{Reply, returns, fails, perform_error, Command, give, ◌>>=◌, ◌>>◌, perform}
use eris_cli.Command.Machine.{Machine, Site, reading, try_file, quietly, in_world}
use eris_cli.Data.Transfer.{export_data, copy_each}
use eris_cli.Chains.Operate.{kill_chain}
use eris_cli.Contracts.Booting.{Run, using, Place}

module _ (D : DockerClient) (M : Machine D) where
  open M use {join, chains_path, data_path, files_in}

  -- The directory of the app on the host.
  unfoldable pub app_location : Run → Text
  app_location run =
      let dir = join data_path run.srv.name in
      if text_eq run.asked.path run.pwd
      then join dir (join (codes "apps") run.app.name)
      else join dir run.asked.path

  unfoldable pub kill_throwaway : Run → Command (Site D M) (Unit {0})
  kill_throwaway run = in_world D M (λ w. quietly (
      kill_chain D w (record now_do {
        name = run.chain_name;
        operations = run.asked.operations;
        rm = true;
        rm_d = true;
      })))

  unfoldable pub remove_chain_files : Run → Command (Site D M) (Unit {0})
  remove_chain_files run = do
    try_file (M.remove_all (join data_path run.chain_name))
    try_file (M.remove (join chains_path (run.chain_name ++ codes ".toml")))

  -- The throwaway chain is killed with its data, and its files on the host are removed.
  unfoldable pub destroy_chain : Run → Command (Site D M) (Unit {0})
  unfolding kill_throwaway remove_chain_files
  destroy_chain run = do kill_throwaway run; remove_chain_files run

  unfoldable pub export_results : Run → Command (Site D M) (Unit {0})
  unfolding app_location
  export_results run = do
    root ← reading (λ f. (M.world f).env.container_root)
    quietly (
        export_data D M (record now_do {
          name = run.srv.name;
          operations = run.asked.operations;
          source = root;
          destination =
              if text_eq run.asked.path run.pwd
              then join data_path run.srv.name
              else run.asked.path;
        }))
    files ← reading (files_in (app_location run))
    if text_eq run.app_type.name (codes "epm") then copy_each D M run.asked.path files else give tt

  -- "if !do.Rm"; the service is `nil`.
  unfoldable pub remove_data_container : Run → Command (Site D M) (Unit {0})
  remove_data_container run = in_world D M (λ w.
      perform D perform_error (docker_remove D w.env false true) blank_service
        (record blank_operation { srv_container_name = run.asked.operations.data_container_name }))

  unfoldable pub clean_up_run : Run → Command (Site D M) (Unit {0})
  unfolding destroy_chain export_results remove_data_container
  clean_up_run run = do
    if text_eq run.chain_type (codes "throwaway") then destroy_chain run else give tt
    export_results run
    if run.asked.rm_d then give tt else try_file (M.remove_all (join data_path run.srv.name))
    if run.asked.rm then give tt else remove_data_container run

  unfoldable pub clean_up : Command (Place D M) (Unit {0})
  unfolding clean_up_run
  clean_up = using clean_up_run

  abbrev pub after_clean_up :
      Reply (Unit {0}) → Reply (Unit {0}) → Place D M → Reply (Unit {0}) × Place D M
  after_clean_up e (returns _) p = (e, p)
  after_clean_up e (fails _) p = (e, p)
  after_clean_up e other p = (other, p)
