-- ===== src/Actions/Manage.antt =====
-- `LoadActionDefinition` of actions/load.go, `Do` of actions/perform.go, the commands of
-- actions/manage.go but for the editor, and `WriteActionDefinitionFile` of actions/writer.go.
use eris_cli.Base.{Bool, false, Option, none, some, List, [], ◌∷◌, ◌++◌, if◌then◌else◌}
use eris_cli.Base.Int.{pos}
use eris_cli.Strings.{Text, codes, text_eq, split, join, contains, replace_first, replace_all}
use eris_cli.Definitions.{Operation}
use eris_cli.Definitions.Do.{Do}
use eris_cli.Docker.{DockerClient}
use eris_cli.Files.{get_file_by_name_and_type}
use eris_cli.Names.{type_service}
use eris_cli.Loaders.Service.{load_service_definition}
use eris_cli.Perform.Service.{docker_run_service}
use eris_cli.Command.{
  Reply, returns, fails, failed_step, perform_error, same_name, file_error, network_error, Command,
  give, fail, crash_command, load, ◌>>=◌, ◌>>◌, perform,
}
use eris_cli.Command.World.{World}
use eris_cli.Command.Machine.{
  Machine, Site, ext, without_ext, with_toml, reading, must, try_file, in_world,
}
use eris_cli.Actions.{cull_cli_variables, read_action_definition, fix_steps, fix_chain}
use eris_cli.Actions.Perform.{
  Action, resolve_services, resolve_chain, start_services_and_chains, Ended, performed,
  no_directory, step_failed, perform_command,
}

-- Whether the file of a name is read, what it is decoded to, and the encoder of an action with its name.
pub record ActionFiles (Files : Type 0) : Type 0 where
  pub readable : Files → Text → Bool
  pub decode : Files → Text → Option Action
  pub write_action : Text → Text → Action → Files → Bool × Files

abbrev pub blank_action : Action
blank_action = record { dependencies = none; chain = []; steps = []; environment = [] }

unfoldable pub underscored : Text → Text
underscored name = replace_all name (codes " ") (codes "_")

module _ {F : Type 0} (A : ActionFiles F) where
  -- The action with its steps fixed, and the variables of the command line; `none` is an error.
  unfoldable pub load_action_definition : Text → F → Option (Action × List Text)
  load_action_definition name f =
      let (words, vars) = cull_cli_variables (split name b'_') in
      let (found, dropped) = read_action_definition (A.readable f) words in
      elim found [
        | none ↦ none
        | some file ↦ elim (A.decode f (join file (codes "_"))) [
          | none ↦ none
          | some act ↦ some (record act { steps = fix_steps act.steps dropped }, vars)
        ]
      ]

-- The file that an action is written to.
unfoldable pub action_file : Text → Text → Text
unfolding underscored
action_file name file = with_toml (if contains file (codes " ") then underscored name else file)

-- Where a rename puts the definition of an action.
unfoldable pub renamed_action_file : Text → Text → Text → Text
renamed_action_file old name new =
    if text_eq (without_ext new) name
    then replace_first old (ext old) (ext new)
    else replace_all (replace_first old name new) (codes " ") (codes "_")

module _ (D : DockerClient) (w : World D) where
  -- The service that exchanges files; one of the two commands sets its container's type.
  unfoldable pub run_ipfs : (Operation → Operation) → Command D.State (Unit {0})
  run_ipfs change = do
    def ← load (λ s. load_service_definition D w.viper w.sources s (codes "ipfs") false (pos 1))
    elim def.service [
      | none ↦ crash_command
      | some srv ↦ perform D perform_error (docker_run_service D w.env) srv (change def.operations)
    ]

module _ (D : DockerClient) (M : Machine D) (A : ActionFiles M.Files) (actions_path : Text) where
  unfoldable pub write_action_definition_file : Text → Action → Text → Command (Site D M) (Unit {0})
  unfolding action_file
  write_action_definition_file name act file =
      must file_error (A.write_action (action_file name file) name act)

  -- The action that is written has no name.
  unfoldable pub new_action : Do → Command (Site D M) (Unit {0})
  unfolding write_action_definition_file
  new_action asked =
      write_action_definition_file [] blank_action
        (M.join actions_path (join asked.operations.args (codes "_")))

  unfoldable pub found_action : Text → M.Files → Text
  found_action name f = get_file_by_name_and_type (M.glob f) (codes "actions") name

  -- A file name without the actions' directory is put into it.
  unfoldable pub in_actions : Text → Text
  in_actions file =
      if contains file actions_path then file else M.join actions_path file ++ codes ".toml"

  unfoldable pub move_action : Action → Text → Text → Text → Command (Site D M) (Unit {0})
  unfolding write_action_definition_file renamed_action_file
  move_action act old name new =
      let file = renamed_action_file old name new in
      if text_eq file old then give tt else (do
        write_action_definition_file (replace_all (without_ext new) (codes "_") (codes " ")) act
            file
        try_file (M.remove old))

  unfoldable pub rename_loaded_action : Action → Text → Text → Command (Site D M) (Unit {0})
  unfolding found_action in_actions move_action
  rename_loaded_action act name new = do
    old ← reading (found_action name)
    if text_eq old [] then fail file_error else move_action act (in_actions old) name new

  unfoldable pub rename_action : Do → Command (Site D M) (Unit {0})
  unfolding rename_loaded_action load_action_definition underscored
  rename_action asked = if text_eq asked.name asked.new_name then fail same_name else (do
    loaded ← reading (load_action_definition A (underscored asked.name))
    elim loaded [
      | none ↦ fail file_error
      | some (act, _) ↦
          rename_loaded_action act (underscored asked.name) (underscored asked.new_name)
    ])

  -- The error of the removal is dropped.
  unfoldable pub rm_action : Do → Command (Site D M) (Unit {0})
  unfolding found_action in_actions
  rm_action asked =
      if asked.file
      then (do
        old ← reading (found_action (join asked.operations.args (codes "_")))
        if text_eq old [] then give tt else try_file (M.remove (in_actions old)))
      else give tt

  unfoldable pub export_action_file : Text → Command (Site D M) Text
  unfolding found_action
  export_action_file name = do
    file ← reading (found_action name)
    sent ← reading (M.send_to_ipfs file)
    if text_eq file []
        then fail file_error
        else elim sent [ none ↦ fail network_error | some hash ↦ give hash ]

  unfoldable pub export_action : Do → Command (Site D M) Text
  unfolding load_action_definition run_ipfs export_action_file
  export_action asked = do
    loaded ← reading (load_action_definition A asked.name)
    elim loaded [
      | none ↦ fail file_error
      | some _ ↦ do in_world D M (λ w. run_ipfs D w (λ ops. ops)); export_action_file asked.name
    ]

  -- A source that is not known is only reported.
  unfoldable pub import_action_from : Text → List Text → Command (Site D M) (Unit {0})
  unfolding run_ipfs
  import_action_from file [] = give tt
  import_action_from file (source ∷ rest) =
      if text_eq source (codes "ipfs")
      then (do
        in_world D M (λ w. run_ipfs D w (λ ops. record ops { container_type = type_service }))
        elim rest [
          | [] ↦ crash_command
          | hash ∷ _ ↦ must network_error (M.get_from_ipfs hash file)
        ])
      else give tt

  unfoldable pub import_action : Do → Command (Site D M) (Unit {0})
  unfolding import_action_from
  import_action asked =
      import_action_from (with_toml (M.join actions_path (join asked.operations.args (codes " "))))
        (split asked.path b':')

abbrev ended_reply : Ended → Reply (Unit {0})
ended_reply performed = returns tt
ended_reply no_directory = fails file_error
ended_reply (step_failed output) = fails (failed_step output)

module _ (D : DockerClient) (M : Machine D) (A : ActionFiles M.Files)
    (shell : Text → List Text → Text → Site D M → (Text × Bool) × Site D M) where
  -- The action with what the request adds to it.
  unfoldable pub resolved_action : Do → Action → Action
  resolved_action asked act =
      let ready = resolve_chain asked.chain_name (resolve_services asked.services_slice act) in
      record ready { steps = fix_chain ready.steps asked.chain_name }

  -- `Do`; the second argument is the environment of the process.
  unfoldable pub do_action : Do → List Text → Command (Site D M) (Unit {0})
  unfolding load_action_definition resolved_action
  do_action asked environ = do
    loaded ← reading (load_action_definition A (join asked.operations.args (codes "_")))
    elim loaded [
      | none ↦ fail file_error
      | some (act, vars) ↦ do
        let action = resolved_action asked act
        in_world D M (λ w. start_services_and_chains D w asked action)
        λ (s, f).
            let (ended, t) = perform_command shell (M.working_dir f) environ vars action (s, f) in
            (ended_reply ended, t)
    ]
