-- ===== src/Loaders/Connected.antt =====
-- What linking to the dependencies does to a service.
use eris_cli.Base.{
  ◌≡◌, refl, sym, ap, Bool-cases, inl, inr, List, [], ◌∷◌, ◌++◌, map, append_assoc, append-nil,
  Bool, true, false, if◌then◌else◌,
}
use eris_cli.Base.Int.{ℤ}
use eris_cli.Strings.{Text, codes}
use eris_cli.Definitions.{Service, Dependencies}
use eris_cli.Dependency.{Dependency, parse_dependency}
use eris_cli.Names.{containers_name, type_service, type_chain}
use eris_cli.Loaders.Connect.{
  connect_to, connect_to_a_service, connect_to_a_chain, connect_each,
  add_dependency_volumes_and_links,
}

abbrev pub keep_if : Bool → Text → List Text → List Text
keep_if keep t ts = if keep then t ∷ ts else ts

-- The links that the dependencies ask for.
abbrev pub links_of : Text → ℤ → List Text → List Text
links_of typ number [] = []
links_of typ number (dep ∷ deps) =
    let parsed = parse_dependency dep in
    keep_if parsed.link
      (containers_name typ parsed.name number ++ (codes ":" ++ parsed.internal_name))
      (links_of typ number deps)

-- The containers whose volumes they ask for.
abbrev pub mounts_of : Text → ℤ → List Text → List Text
mounts_of typ number [] = []
mounts_of typ number (dep ∷ deps) =
    let parsed = parse_dependency dep in
    keep_if parsed.mount (containers_name typ parsed.name number ++ codes ":rw")
      (mounts_of typ number deps)

abbrev pub with_both : List Text → List Text → Service → Service
with_both links mounts srv = record srv {
  links = srv.links ++ links;
  volumes_from = srv.volumes_from ++ mounts;
}

abbrev pub bare : Text → Text
bare dep = (parse_dependency dep).name

with_both-append :
    (l m k n : List Text) (srv : Service)
    → with_both k n (with_both l m srv) ≡ with_both (l ++ k) (m ++ n) srv
with_both-append l m k n srv =
    rw (append_assoc srv.links l k, append_assoc srv.volumes_from m n) refl

with_both-nil : (srv : Service) → with_both [] [] srv ≡ srv
with_both-nil srv = rw (append-nil srv.links, append-nil srv.volumes_from) refl

keep_if-append :
    (keep : Bool) (t : Text) (ts : List Text) → keep_if keep t [] ++ ts ≡ keep_if keep t ts
keep_if-append true t ts = refl
keep_if-append false t ts = refl

connect_to_lem :
    (typ : Text) (number : ℤ) (dep : Dependency) (srv : Service)
    → connect_to typ number dep srv
      ≡ with_both
          (keep_if dep.link
            (containers_name typ dep.name number ++ (codes ":" ++ dep.internal_name))
            [])
          (keep_if dep.mount (containers_name typ dep.name number ++ codes ":rw") [])
          srv
unfolding connect_to
connect_to_lem typ number dep srv = elim (Bool-cases dep.link) [
  | inl l ↦ elim (Bool-cases dep.mount) [
    | inl m ↦ rw (l, m) refl
    | inr m ↦ rw (l, m, append-nil srv.volumes_from) refl
  ]
  | inr l ↦ elim (Bool-cases dep.mount) [
    | inl m ↦ rw (l, m, append-nil srv.links) refl
    | inr m ↦ rw (l, m) (sym (with_both-nil srv))
  ]
]

connect_each_lem :
    (typ : Text) (number : ℤ) (deps : List Text) (srv : Service)
    → connect_each (connect_to typ number) deps srv
      ≡ (map bare deps, with_both (links_of typ number deps) (mounts_of typ number deps) srv)
unfolding connect_each
connect_each_lem typ number [] srv = ap (λ x. ([], x)) (sym (with_both-nil srv))
connect_each_lem typ number (dep ∷ deps) srv =
    let parsed = parse_dependency dep in
    rw
      (
        connect_to_lem typ number parsed srv,
        connect_each_lem typ number deps,
        with_both-append,
        keep_if-append,
        keep_if-append,
      )
      refl

-- Linking appends to the service's links and volumes those that its dependencies ask for, services
-- before chains and each in order, changes nothing else of the service, and leaves the bare names
-- of the dependencies.
pub add_dependency_volumes_and_links_lem :
    (number : ℤ) (deps : Dependencies) (srv : Service)
    → add_dependency_volumes_and_links number deps srv ≡ (
      record { chains = map bare deps.chains; services = map bare deps.services },
      with_both
          (links_of type_service number deps.services ++ links_of type_chain number deps.chains)
          (mounts_of type_service number deps.services ++ mounts_of type_chain number deps.chains)
          srv,
    )
unfolding add_dependency_volumes_and_links connect_to_a_service connect_to_a_chain
add_dependency_volumes_and_links_lem number deps srv =
    rw
      (
        connect_each_lem type_service number deps.services srv,
        connect_each_lem type_chain number deps.chains,
        with_both-append,
      )
      refl
