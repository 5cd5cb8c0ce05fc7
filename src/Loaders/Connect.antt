-- ===== src/Loaders/Connect.antt =====
-- Links and mounts of dependencies: `connectToAService`, `ConnectToAService`, `ConnectToAChain` and
-- `addDependencyVolumesAndLinks`.
use eris_cli.Base.{List, [], ◌∷◌, ◌++◌, if◌then◌else◌}
use eris_cli.Base.Int.{ℤ}
use eris_cli.Strings.{Text, codes}
use eris_cli.Definitions.{Service, Dependencies}
use eris_cli.Dependency.{Dependency, parse_dependency}
use eris_cli.Names.{containers_name, type_service, type_chain}

-- The service with the link and the mount. Of the operation only the container's number is read.
unfoldable pub connect_to : Text → ℤ → Dependency → Service → Service
connect_to typ number dep srv =
    let container = containers_name typ dep.name number in
    let linked =
      if dep.link
      then record srv { links = srv.links ++ (container ++ (codes ":" ++ dep.internal_name)) ∷ [] }
      else srv in
    if dep.mount
    then record linked { volumes_from = linked.volumes_from ++ (container ++ codes ":rw") ∷ [] }
    else linked

unfoldable pub connect_to_a_service : ℤ → Dependency → Service → Service
unfolding connect_to
connect_to_a_service number dep srv = connect_to type_service number dep srv

unfoldable pub connect_to_a_chain : ℤ → Dependency → Service → Service
unfolding connect_to
connect_to_a_chain number dep srv = connect_to type_chain number dep srv

-- One of the two loops, which writes the bare names over the dependencies.
unfoldable pub connect_each :
    (Dependency → Service → Service) → List Text → Service → List Text × Service
connect_each connect [] srv = ([], srv)
connect_each connect (dep ∷ deps) srv =
    let parsed = parse_dependency dep in
    let (names, after) = connect_each connect deps (connect parsed srv) in
    (parsed.name ∷ names, after)

unfoldable pub add_dependency_volumes_and_links :
    ℤ → Dependencies → Service → Dependencies × Service
unfolding connect_each
add_dependency_volumes_and_links number deps srv =
    let (services, linked) = connect_each (connect_to_a_service number) deps.services srv in
    let (chains, connected) = connect_each (connect_to_a_chain number) deps.chains linked in
    (record { chains = chains; services = services }, connected)
