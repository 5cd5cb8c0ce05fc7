-- ===== src/Command.antt =====
-- What the commands of services/, chains/ and data/ share: they load definitions and perform
-- operations on containers, and pass the daemon on.

pub mod World
pub mod Machine
pub mod Named
pub mod Steps
use eris_cli.Base.{Option, none, some}
use eris_cli.Strings.{Text}
use eris_cli.Definitions.{Operation, Service}
use eris_cli.Docker.{DockerClient}
use eris_cli.Loaders.Outcome.{LoadError, Outcome, loaded, refused, panicked}
use eris_cli.Perform.Action.{Session, Error, Result, ok, err, panics, blocks, Exec}

pub data Failure : Type 0 where
  load_error : LoadError → Failure
  perform_error : Error → Failure
  -- the definition that `StartGroup` could not start
  start_error : Text → Error → Failure
  -- `$chain` without a chain
  chain_not_given : Failure
  -- a chain and one that it depends on
  chain_not_running : Text → Text → Failure
  unknown_data : Text → Failure
  unknown_plop : Text → Failure
  -- an option that is no <key>=<value> pair
  bad_option : Text → Failure
  -- an error, and that of the clean up after it
  tragic : Failure → Failure → Failure
  same_name unknown_task no_data_container file_error network_error improper_file no_name
        unknown_source wrong_chain :
      Failure
  -- a name that is not known, and a service that does not run
  unknown_service unknown_chain not_running failed_step : Text → Failure

-- What a command comes to. `crashes` is a panic or an exit of the program, `unending` is a recursion that has not ended on its fuel.
pub data Reply (A : Type 0) : Type 0 where
  returns : A → Reply A
  fails : Failure → Reply A
  crashes waits unending : Reply A

abbrev pub Command : Type 0 → Type 0 → Type 0
Command S A = S → Reply A × S

abbrev pub outcome_reply : {A : Type 0} → Outcome A → Reply A
outcome_reply (loaded a) = returns a
outcome_reply (refused e) = fails (load_error e)
outcome_reply panicked = crashes

abbrev pub option_reply : {A : Type 0} → Option (Outcome A) → Reply A
option_reply none = unending
option_reply (some o) = outcome_reply o

module _ {S A : Type 0} where
  unfoldable pub give : A → Command S A
  give a s = (returns a, s)

  unfoldable pub fail : Failure → Command S A
  fail f s = (fails f, s)

  unfoldable pub crash_command : Command S A
  crash_command s = (crashes, s)

  -- A loader only reads the daemon.
  unfoldable pub load : (S → Outcome A) → Command S A
  load f s = (outcome_reply (f s), s)

  unfoldable pub load_fuelled : (S → Option (Outcome A)) → Command S A
  load_fuelled f s = (option_reply (f s), s)

  unfoldable pub query : (S → A) → Command S A
  query f s = (returns (f s), s)

module _ {S A B : Type 0} where
  abbrev pub follow : Reply A → (A → Command S B) → S → Reply B × S
  follow (returns a) f s = f a s
  follow (fails e) f s = (fails e, s)
  follow crashes f s = (crashes, s)
  follow waits f s = (waits, s)
  follow unending f s = (unending, s)

  infixl 5 ◌>>=◌ ◌>>◌
  abbrev pub ◌>>=◌ : Command S A → (A → Command S B) → Command S B
  ◌>>=◌ m f s = let (r, t) = m s in follow r f t

  abbrev pub ◌>>◌ : Command S A → Command S B → Command S B
  m >> n = m >>= λ _. n

abbrev pub result_reply : (Error → Failure) → Result (Unit {0}) → Reply (Unit {0})
result_reply wrap (ok u) = returns u
result_reply wrap (err e) = fails (wrap e)
result_reply wrap panics = crashes
result_reply wrap blocks = waits

module _ (D : DockerClient) where
  -- An operation on a container. What it writes into the two structs is dropped, as the commands do
  -- that return its error or none.
  unfoldable pub perform :
      (Error → Failure) → Exec D (Unit {0}) → Service → Operation → Command D.State (Unit {0})
  perform wrap action srv ops s =
      let (r, t) = action (record { daemon = s; srv = srv; ops = ops }) in
      (result_reply wrap r, t.daemon)

  -- The same where the command goes on with the operation that was written into.
  unfoldable pub perform_writing :
      (Error → Failure) → Exec D (Unit {0}) → Service → Operation → Command D.State Operation
  perform_writing wrap action srv ops s =
      let (r, t) = action (record { daemon = s; srv = srv; ops = ops }) in
      follow (result_reply wrap r) (λ _. give t.ops) t.daemon
