-- ===== src/Docker.antt =====
-- The Docker client, a library that the program calls (github.com/fsouza/go-dockerclient). Its
-- structs are data; its calls are a parameter, and what the daemon keeps is the state `State`.
use eris_cli.Base.{ℕ, Bool, Option, List}
use eris_cli.Base.Int.{ℤ}
use eris_cli.Strings.{Text}
use eris_cli.Dict.{Dict}

pub record ApiContainer : Type 0 where
  pub id : Text
  pub names : List Text
  pub labels : Dict Text

pub record Config : Type 0 where
  pub hostname : Text
  pub domainname : Text
  pub user : Text
  pub memory : ℤ
  pub cpu_shares : ℤ
  pub attach_stdin : Bool
  pub attach_stdout : Bool
  pub attach_stderr : Bool
  pub tty : Bool
  pub open_stdin : Bool
  pub env : List Text
  pub labels : Option (Dict Text)
  pub image : Text
  pub network_disabled : Bool
  pub entrypoint : List Text
  pub cmd : List Text
  pub working_dir : Text
  pub exposed_ports : Dict (Unit {0})
  pub volumes : Dict (Unit {0})

pub data RestartPolicy : Type 0 where
  unset never_restart always_restart : RestartPolicy
  restart_on_failure : ℤ → RestartPolicy

pub record PortBinding : Type 0 where
  pub host_ip : Text
  pub host_port : Text

pub record HostConfig : Type 0 where
  pub binds : List Text
  pub links : List Text
  pub publish_all_ports : Bool
  pub privileged : Bool
  pub readonly_rootfs : Bool
  pub dns : List Text
  pub dns_search : List Text
  pub volumes_from : List Text
  pub cap_add : List Text
  pub cap_drop : List Text
  pub restart_policy : RestartPolicy
  pub network_mode : Text
  pub port_bindings : Dict (List PortBinding)

-- `docker.CreateContainerOptions` with both pointers set.
pub record CreateOptions : Type 0 where
  pub name : Text
  pub config : Config
  pub host_config : HostConfig

pub record Container : Type 0 where
  pub id : Text
  pub config : Config
  pub host_config : HostConfig

pub record RemoveOptions : Type 0 where
  pub id : Text
  pub remove_volumes : Bool
  pub force : Bool

pub record PullOptions : Type 0 where
  pub repository : Text
  pub registry : Text
  pub tag : Text

-- The client's errors. The program tells only `ErrNoSuchImage` from the others.
pub data DockerError : Type 0 where
  no_such_image : DockerError
  failure : Text → DockerError

pub data Answer {ℓ} (A : Type ℓ) : Type ℓ where
  done : A → Answer A
  failed : DockerError → Answer A

-- A call reads the daemon's state, or leaves a new one whether it fails or not.
pub record DockerClient : Type 1 where
  pub State : Type 0
  pub list_containers : Bool → State → Answer (List ApiContainer)
  pub inspect_container : Text → State → Answer Container
  pub create_container : CreateOptions → State → Answer Container × State
  pub start_container : Text → HostConfig → State → Answer (Unit {0}) × State
  pub stop_container : Text → ℕ → State → Answer (Unit {0}) × State
  pub remove_container : RemoveOptions → State → Answer (Unit {0}) × State
  pub pull_image : PullOptions → State → Answer (Unit {0}) × State
  pub wait_container : Text → State → (ℤ × Option DockerError) × State
  pub write_logs : Text → Bool → Text → State → Answer (Unit {0}) × State
