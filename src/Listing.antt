-- ===== src/Listing.antt =====
-- Finding the program's containers in the daemon's list: the second half of util/container_info.go,
-- and `ParseContainers` with `listContainers` of util/container_stats.go.
pub mod Ports
pub mod Patterns
pub mod Find
pub mod Prefix
pub mod Listed
pub mod Reports
use eris_cli.Base.{
  ℕ, Bool, true, false, ◌&&◌, none, some, Option, List, [], ◌∷◌, ◌++◌, map, suc, zero,
  if◌then◌else◌,
}
use eris_cli.Base.Int.{ℤ, int_eq}
use eris_cli.Strings.{Text, codes, text_eq, replace_first, replace_all, is_some}
use eris_cli.Names.{ContainerName, container_disassemble, type_service, type_chain, type_data}
use eris_cli.Docker.{ApiContainer, Answer, done, failed, DockerClient}
use Patterns.{eris_reg_exp, eris_reg_exp_links, eris_reg_exp_any, name_pattern}

-- The inner loop, over the names of one container.
collect_names : Text → Text → List Text → List ContainerName
collect_names typ id [] = []
collect_names typ id (c ∷ names) =
    let rest = collect_names typ id names in
    if eris_reg_exp_links typ c
    then rest
    else if eris_reg_exp typ c
    then record (container_disassemble (replace_first c (codes "/") [])) { container_id = id }
      ∷ rest
    else rest

collect_containers : Text → List ApiContainer → List ContainerName
collect_containers typ [] = []
collect_containers typ (con ∷ contns) =
    collect_names typ con.id con.names ++ collect_containers typ contns

-- A daemon that cannot be reached lists nothing.
unfoldable pub listed {ℓ} : {A : Type ℓ} → Answer (List A) → List A
listed (done contns) = contns
listed (failed e) = []

with_name : Text → List ContainerName → List ContainerName
with_name name [] = []
with_name name (c ∷ cs) =
    let rest = with_name name cs in if text_eq c.short_name name then c ∷ rest else rest

-- The loop of `FindServiceContainer`, `FindChainContainer` and `FindDataContainer`.
unfoldable pub find_numbered : Text → ℤ → List ContainerName → Option ContainerName
find_numbered name number [] = none
find_numbered name number (c ∷ cs) =
    let rest = find_numbered name number cs in
    if text_eq c.short_name name then (if int_eq c.number number then some c else rest) else rest

first_match : Text → List Text → Bool
first_match pattern [] = false
first_match pattern (n ∷ names) =
    let rest = first_match pattern names in if name_pattern pattern n then true else rest

-- The loop of `ParseContainers`.
unfoldable pub find_matching : Text → List ApiContainer → Option ApiContainer
unfolding first_match
find_matching pattern [] = none
find_matching pattern (c ∷ contns) =
    let rest = find_matching pattern contns in if first_match pattern c.names then some c else rest

-- A container stands in the list once for each of its names that matches.
repeat_matches : ApiContainer → List Text → List ApiContainer
repeat_matches con [] = []
repeat_matches con (c ∷ names) =
    let rest = repeat_matches con names in if eris_reg_exp_any c then con ∷ rest else rest

keep_eris : List ApiContainer → List ApiContainer
keep_eris [] = []
keep_eris (con ∷ contns) = repeat_matches con con.names ++ keep_eris contns

count_names : List ContainerName → ℕ
count_names [] = zero
count_names (c ∷ cs) = suc (count_names cs)

module _ (D : DockerClient) (s : D.State) where
  unfoldable pub eris_containers_by_type : Text → Bool → List ContainerName
  unfolding collect_containers collect_names listed
  eris_containers_by_type typ running =
      collect_containers typ (listed (D.list_containers running s))

  unfoldable pub how_many_containers : Text → Text → Bool → ℕ
  unfolding with_name count_names eris_containers_by_type
  how_many_containers name typ running =
      count_names (with_name name (eris_containers_by_type typ running))

  unfoldable pub how_many_containers_existing : Text → Text → ℕ
  unfolding how_many_containers
  how_many_containers_existing name typ = how_many_containers name typ true

  unfoldable pub how_many_containers_running : Text → Text → ℕ
  unfolding how_many_containers
  how_many_containers_running name typ = how_many_containers name typ false

  unfoldable pub service_containers : Bool → List ContainerName
  unfolding eris_containers_by_type
  service_containers running = eris_containers_by_type type_service running

  unfoldable pub service_container_names : Bool → List Text
  unfolding service_containers
  service_container_names running = map (λ c. c.short_name) (service_containers running)

  unfoldable pub service_container_full_names : Bool → List Text
  unfolding service_containers
  service_container_full_names running = map (λ c. c.full_name) (service_containers running)

  unfoldable pub chain_containers : Bool → List ContainerName
  unfolding eris_containers_by_type
  chain_containers running = eris_containers_by_type type_chain running

  unfoldable pub chain_container_names : Bool → List Text
  unfolding chain_containers
  chain_container_names running = map (λ c. c.short_name) (chain_containers running)

  unfoldable pub chain_container_full_names : Bool → List Text
  unfolding chain_containers
  chain_container_full_names running = map (λ c. c.full_name) (chain_containers running)

  unfoldable pub data_containers : List ContainerName
  unfolding eris_containers_by_type
  data_containers = eris_containers_by_type type_data true

  -- `ls` shows the underscores of a data container's name as spaces.
  unfoldable pub data_container_names : List Text
  unfolding data_containers replace_all
  data_container_names = map (λ c. replace_all c.short_name (codes "_") (codes " ")) data_containers

  unfoldable pub data_container_full_names : List Text
  unfolding data_containers
  data_container_full_names = map (λ c. c.full_name) data_containers

  unfoldable pub find_service_container : Text → ℤ → Bool → Option ContainerName
  unfolding service_containers
  find_service_container name number running =
      find_numbered name number (service_containers running)

  unfoldable pub is_service_container : Text → ℤ → Bool → Bool
  unfolding find_service_container
  is_service_container name number running = is_some (find_service_container name number running)

  unfoldable pub find_chain_container : Text → ℤ → Bool → Option ContainerName
  unfolding chain_containers
  find_chain_container name number running = find_numbered name number (chain_containers running)

  unfoldable pub is_chain_container : Text → ℤ → Bool → Bool
  unfolding find_chain_container
  is_chain_container name number running = is_some (find_chain_container name number running)

  unfoldable pub find_data_container : Text → ℤ → Option ContainerName
  unfolding data_containers
  find_data_container name number = find_numbered name number data_containers

  unfoldable pub is_data_container : Text → ℤ → Bool
  unfolding find_data_container
  is_data_container name number = is_some (find_data_container name number)

  -- `listContainers`
  unfoldable pub list_eris_containers : Bool → List ApiContainer
  unfolding keep_eris repeat_matches listed
  list_eris_containers all = keep_eris (listed (D.list_containers all s))

  -- `none` stands for the result `(APIContainers{}, false)`.
  unfoldable pub parse_containers : Text → Bool → Option ApiContainer
  unfolding list_eris_containers find_matching
  parse_containers name all = find_matching name (list_eris_containers all)
