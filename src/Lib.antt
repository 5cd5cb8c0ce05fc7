-- ===== src/Lib.antt =====
-- Eris CLI runs services and blockchains in Docker containers. This library models the part of it that
-- loads definitions, names containers, finds them, numbers them, configures them, drives the Docker
-- daemon, and starts and stops services and chains with what they depend on.
--
-- The program's parts and the files that model them:
--
--   Names, Names/RoundTrip       the naming scheme `eris_<type>_<name>_<number>` (util/container_info.go)
--   Listing and its children     what is found in the daemon's list (the rest of that file, and
--                                `ParseContainers` of util/container_stats.go), and what `ls` shows
--                                (util/listing_functions.go)
--   Numbering, Numbering/Fresh   `AutoMagic` (util/container_operations.go)
--   Merge and its children       `Merge`, reflection on structs (the same file)
--   Dependency, Dependency/Laws  `ParseDependency`, `FixDirs`, `PortAndProtocol`
--   Labels                       util/container_labels.go and loaders/data.go
--   Files, Head, Head/Stack      known definition files, the HEAD file (util/paths_and_fileops.go,
--                                services/load.go, util/chains_info.go, chains/manage.go)
--   Definitions, Docker          the structs of definitions/, and the Docker client, a parameter
--   Configure and its children   the options of a container (perform/docker_run.go, `configure...`)
--   Perform and its children     the operations on containers (perform/docker_run.go)
--   Loaders and its children     services and chains from definition files (loaders/services.go,
--                                loaders/chains.go)
--   Command and its children     what the commands share: their outcomes, what they read, and the machine
--                                with its files (Command/Machine)
--   Command/Named                the name of the request, which the boot of a chain's dependencies writes
--   Services, Services/Load      whether a service's container exists (services/load.go)
--   Services/Group and children  a service and what it depends on (services/operate.go)
--   Services/Chains and children the chains of a group of services (the same file)
--   Services/Operate, Started,   start, kill and exec of services (the same file), and
--   Stopped, Composed, Manage    services/manage.go
--   Services/Definitions and     services with their definition files (services/manage.go, writer.go,
--   children                     load.go)
--   Chains and its children      operations on chains (chains/load.go, operate.go, manage.go)
--   Chains/Definitions           chains with their definition files (chains/manage.go, writer.go)
--   Chains/Setup and children,   new chains (chains/operate.go) and their registration
--   Chains/Register              (chains/manage.go, data/load.go)
--   Data                         operations on data containers (data/load.go, manage.go, operate.go)
--   Data/Transfer, .../Ends,     imports and exports of data (data/operate.go) and its removal with
--   Data/Removal                 folders (data/manage.go)
--   Contracts and its children   packages of contracts (loaders/contracts.go, contracts/operate.go)
--   Contracts/Booting, CleanUp,  the run of a package (contracts/operate.go), with `ThrowAwayChain` of
--   Run and their children       chains/operate.go
--   Actions and its children     the definition of an action, its steps, and the commands on actions
--                                (actions/load.go, perform.go, manage.go, writer.go)
--   Clean and its children       the removal of containers, images and the directory (util/clean.go)
--   Migrate, Migrate/Moves       the migration of deprecated directories (util/migrate_dirs.go)
--   Base, Strings, Dict          numbers, Go strings as lists of bytes, Go maps as association lists
--   Tests                        a daemon in memory, and the theorems at concrete inputs
--
-- How they interact. Every operation of Perform is an action on a session: the daemon's state, the
-- service and the operation, since the Go functions share the pointers `srv` and `ops` with their callers
-- and write through them (a container number of 0, a service's fixed volumes, its image). An action
-- returns, returns an error, panics or waits for ever, as the Go function does, and leaves a session in each
-- case. Perform/Calls has the functions next to the client, Perform/Data, Service, Lifecycle and Rename
-- those that the commands call. They look containers up with Listing, build options with Configure, and
-- fix directories with Dependency.
--
-- A command (Command) is a function of the daemon's state to an outcome and a state. It loads definitions,
-- which only reads the daemon, and performs operations of Perform on their services; a definition that is
-- loaded is a value of its own, as each load makes new structs. A command ends with a value, an error, a
-- panic, a wait for ever, or, where it builds a group of services, without an end on its fuel.
-- `StartService` builds the groups of its arguments with Services/Group, merges the request into their
-- operations with Merge, adds their chains with Services/Chains, and starts the result in its order.
--
-- A command that also reads or writes files has the daemon's state and the files for its state (`Site` of
-- Command/Machine), and what it reads of its surroundings it reads from the files as they are then. The run
-- of a package shares its request and its package by pointers over all its stages, also after an error, so
-- both are part of its state (`Run` of Contracts/Booting). It boots services with Services/Group, a chain
-- with Chains/Operate or Chains/Setup, fills a data container with Data/Transfer, performs the action with
-- Perform/Service, and cleans up with Chains/Operate and Data/Transfer.
--
-- `bootDependencies` of a chain writes the name of its request, which `setupChain` and `bootThrowAwayChain`
-- read after an error of it. So their commands have that name in their state (Command/Named); the other
-- callers, which do not read the name again, forget it.
--
-- State and operations correspond by name: `DockerRunService` is `docker_run_service`, `ParseContainers` is
-- `parse_containers`, `ChangeHead` is `change_head`, and so on, with Go's words in this library's
-- spelling. Deferred calls are `with_removal` and `with_quiet_removal`. Go's `int` is a 64-bit integer
-- with its wrap-around; `nil` slices are empty lists, which the code does not tell apart, and a `nil` map
-- is `none` where it does. The regular expressions are matched by functions written out for the three
-- patterns. Every loop is over a list or a text, but for three. The search for an action's file has the number
-- of words for its fuel, and each round drops a word. The recursion of `BuildServicesGroup` over
-- dependencies, which the code does not bound, has a fuel that bounds its depth; Services/Group/Finite says
-- when it is enough and when no fuel is. `ImportData` calls itself once it has made the data container; its
-- fuel is 2 wherever it is called, and Data/Transfer/Ends says when that is enough.
--
-- The Docker client is github.com/fsouza/go-dockerclient, third-party code: the record `DockerClient` is a
-- parameter, and Perform/Promises states the two things that some theorems rely on. The viper library,
-- which reads and decodes definition files, is the parameter `Viper` of Loaders/Outcome. What the program
-- reads of its surroundings (environment variables, the answer at the prompt, directories) is the record
-- `Env`, and with the HEAD file and the order in which Go goes through a map it is the record `World`. The
-- calls of Go's package `os`, of the encoders that write definition files, of the archiver, of IPFS, and of
-- the daemon's archives are the parameter `Machine` of Command/Machine; those of the migration are the
-- parameter `FileSystem` of Migrate, those on action files `ActionFiles` of Actions/Manage, and the daemon's
-- calls for images `ImageClient` of Clean/Images.
--
-- Not modelled: output and logging, tables (the parameter `TableReport` of Listing/Reports), the terminal and
-- the signals of an interactive container (attaching to it is a test of `Env` that tells whether it
-- signals), partial writes of files, the maintainer and the location that a definition carries, names with
-- characters that mean something to a regular expression, and the parts of the program that edit or print
-- files or call other programs: the commands' flags, the editor, the printing of files, projects, keys, the
-- commands on files, and the connection to the daemon.
pub mod Base
pub mod Strings
pub mod Migrate
pub mod Names
pub mod Dict
pub mod Definitions
pub mod Docker
pub mod Listing
pub mod Loaders
pub mod Numbering
pub mod Files
pub mod Head
pub mod Merge
pub mod Dependency
pub mod Labels
pub mod Chains
pub mod Clean
pub mod Command
pub mod Configure
pub mod Contracts
pub mod Data
pub mod Actions
pub mod Services
pub mod Perform
pub mod Tests
