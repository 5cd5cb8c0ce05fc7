-- ===== src/Services/Load.antt =====
-- What a test on a service's container leaves in the operation.
use eris_cli.Base.{
  ℕ, ◌≡◌, refl, ◌≤◌, ap, ◌∙◌, Bool, true, false, none, some, List, [], ◌∷◌, ◌++◌, ◌&&◌, Bool-cases,
  inl, inr, Option-cases,
}
use eris_cli.Base.Int.{ℤ, pos, max_int}
use eris_cli.Strings.{Text, codes, text_eq}
use eris_cli.Definitions.{Operation, Service}
use eris_cli.Docker.{ApiContainer, DockerClient, done}
use eris_cli.Names.{ContainerName, container_assemble}
use eris_cli.Listing.{
  find_service_container, find_data_container, service_containers, find_numbered,
  eris_containers_by_type,
}
use eris_cli.Listing.Find.{IsNameable, find-listed}
use eris_cli.Services.{populate_data, is_service_existing}

module _ (D : DockerClient) (s : D.State) where
  populate_data-name :
      (service : Service) (ops : Operation)
      → ((populate_data D s service ops).srv_container_name ≡ ops.srv_container_name)
        × ((populate_data D s service ops).srv_container_id ≡ ops.srv_container_id)
  unfolding populate_data
  populate_data-name service ops =
      elim (Bool-cases (service.auto_data && text_eq ops.data_container_id [])) [
        | inr off ↦ rw off (refl, refl)
        | inl on ↦ elim (Option-cases (find_data_container D s service.name ops.container_number)) [
          | inl missing ↦ rw (on, missing) (refl, refl)
          | inr (d, found) ↦ rw (on, found) (refl, refl)
        ]
      ]

  found_step :
      (service : Service) (ops : Operation) (c : ContainerName)
      → find_service_container D s service.name ops.container_number true ≡ some c
      → is_service_existing D s service ops ≡ (
        true,
        populate_data D s service
            (record ops { srv_container_name = c.dockers_name; srv_container_id = c.container_id }),
      )
  unfolding is_service_existing
  found_step service ops c h =
      ap
        (λ o. elim o as (λ _. Bool × Operation) [
          | none ↦ (false, ops)
          | some c ↦ (
            true,
            populate_data D s service (record ops {
              srv_container_name = c.dockers_name;
              srv_container_id = c.container_id;
            }),
          )
        ])
        h

  find_service_lem :
      (name : Text) (number : ℤ) (c : ContainerName)
      → find_numbered name number (eris_containers_by_type D s (codes "service") true) ≡ some c
      → find_service_container D s name number true ≡ some c
  unfolding find_service_container service_containers
  find_service_lem name number c h = h

  -- What the operation holds after a test that found the container.
  pub record Populated (service : Service) (ops : Operation) (n : ℕ) (after : Bool × Operation)
      : Type 0 where
    pub container : ContainerName
    pub named : container.short_name ≡ service.name
    pub numbered : container.number ≡ pos n
    pub positive : after.0 ≡ true
    pub srv_name : after.1.srv_container_name ≡ container.dockers_name
    pub srv_id : after.1.srv_container_id ≡ container.container_id

  -- If the daemon lists a container of the service under its name and number, the service exists, and
  -- the operation then names a listed container of that short name and number, by Docker's name and
  -- id, whether or not the service has a data container.
  pub is_service_existing-Populated :
      (service : Service) (ops : Operation) (n : ℕ) (before after : List ApiContainer)
      (con : ApiContainer)
      → IsNameable (codes "service") service.name
      → n ≤ max_int
      → ops.container_number ≡ pos n
      → D.list_containers true s ≡ done (before ++ con ∷ after)
      → con.names ≡ (container_assemble (codes "service") service.name (pos n)).dockers_name ∷ []
      → Populated service ops n (is_service_existing D s service ops)
  is_service_existing-Populated service ops n before after con nameable small number listing names =
      let (c, found, named, numbered) =
        find-listed D s (codes "service") service.name n true before after con nameable small
          listing names in
      let step = found_step service ops c (
        ap (λ k. find_service_container D s service.name k true) number
        ∙ find_service_lem service.name (pos n) c found) in
      let (name, id) =
        populate_data-name service
          (record ops { srv_container_name = c.dockers_name; srv_container_id = c.container_id }) in
      record {
        container = c;
        named = named;
        numbered = numbered;
        positive = ap (λ p. p.0) step;
        srv_name = ap (λ p. p.1.srv_container_name) step ∙ name;
        srv_id = ap (λ p. p.1.srv_container_id) step ∙ id;
      }
