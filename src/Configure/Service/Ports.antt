-- ===== src/Configure/Service/Ports.antt =====
-- The options of a service's container: its name, and its ports.
use eris_cli.Base.{
  ◌||◌, ◌≡◌, refl, Bool, true, false, Option, none, some, List, [], ◌∷◌, ◌∙◌, ap, arith,
  if◌then◌else◌,
}
use eris_cli.Strings.{Text, text_eq, split}
use eris_cli.Strings.Laws.{text_eq_iff}
use eris_cli.Dict.{Dict, insert}
use eris_cli.Definitions.{Operation, Service}
use eris_cli.Docker.{CreateOptions, PortBinding, RestartPolicy}
use eris_cli.Configure.Service.{
  Configured, options, zero_options, panic, Restart, policy, bad_number, no_number,
  configure_service_container, service_options, expose_ports, bind_ports, container_port,
  host_binding, container_volumes, restart_policy,
}

-- Options that are returned are those of some restart policy and volumes.
record Built (srv : Service) (ops : Operation) (opts : CreateOptions) : Type 0 where
  restart : RestartPolicy
  volumes : Dict (Unit {0})
  built : opts ≡ service_options srv ops restart volumes

from_volumes :
    (srv : Service) (ops : Operation) (opts : CreateOptions) (p : RestartPolicy)
    (v : Option (Dict (Unit {0})))
    → (elim v as (λ _. Configured) [
      | none ↦ panic
      | some volumes ↦ options (service_options srv ops p volumes)
    ])
      ≡ options opts
    → Built srv ops opts
from_volumes srv ops opts p none h = absurd (cc h)
from_volumes srv ops opts p (some volumes) h = record { restart = p; volumes = volumes; built = cc }

from_restart :
    (srv : Service) (ops : Operation) (opts : CreateOptions) (r : Restart)
    → (elim r as (λ _. Configured) [
      | no_number ↦ panic
      | bad_number ↦ zero_options
      | policy p ↦ elim (container_volumes srv.volumes []) [
        | none ↦ panic
        | some volumes ↦ options (service_options srv ops p volumes)
      ]
    ])
      ≡ options opts
    → Built srv ops opts
from_restart srv ops opts no_number h = absurd (cc h)
from_restart srv ops opts bad_number h = absurd (cc h)
from_restart srv ops opts (policy p) h =
    from_volumes srv ops opts p (container_volumes srv.volumes []) h

configure_service_container-Built :
    (srv : Service) (ops : Operation) (opts : CreateOptions)
    → configure_service_container srv ops ≡ options opts
    → Built srv ops opts
configure_service_container-Built srv ops opts h =
    from_restart srv ops opts (restart_policy ops.restart) (unfold configure_service_container in h)

pub configure_service_container-name :
    (srv : Service) (ops : Operation) (opts : CreateOptions)
    → configure_service_container srv ops ≡ options opts
    → opts.name ≡ ops.srv_container_name
unfolding service_options
configure_service_container-name srv ops opts h =
    ap (λ o. o.name) (configure_service_container-Built srv ops opts h).built

-- What the keys of a map of ports are.
unfoldable pub has_key {ℓ} : {V : Type ℓ} → Text → Dict V → Bool
has_key k [] = false
has_key k ((j, v) ∷ m) = text_eq j k || has_key k m

has_key-insert {ℓ} :
    {V : Type ℓ} (k j : Text) (v : V) (m : Dict V)
    → has_key k (insert j v m) ≡ (text_eq j k || has_key k m)
unfolding has_key insert
has_key-insert k j v [] = refl
has_key-insert k j v ((i, w) ∷ m) = ground (arith, has_key-insert k j v m, text_eq_iff i j)

-- A key that some port has.
unfoldable pub any_port : Text → List Text → Bool
unfolding container_port
any_port k [] = false
any_port k (port ∷ ports) = text_eq (container_port port) k || any_port k ports

has_key-expose_ports :
    (k : Text) (ports : List Text) (exposed : Dict (Unit {0}))
    → has_key k (expose_ports ports exposed) ≡ (any_port k ports || has_key k exposed)
unfolding expose_ports any_port
has_key-expose_ports k [] exposed = refl
has_key-expose_ports k (port ∷ ports) exposed = ground (
  arith,
  has_key-expose_ports k ports (insert (container_port port) tt exposed),
  has_key-insert k (container_port port) tt exposed,
)

has_key-bind_ports :
    (k : Text) (ports : List Text) (bindings : Dict (List PortBinding))
    → has_key k (bind_ports ports bindings) ≡ (any_port k ports || has_key k bindings)
unfolding bind_ports any_port
has_key-bind_ports k [] bindings = refl
has_key-bind_ports k (port ∷ ports) bindings = ground (
  arith,
  has_key-bind_ports k ports
      (insert (container_port port) (host_binding (split port b':') ∷ []) bindings),
  has_key-insert k (container_port port) (host_binding (split port b':') ∷ []) bindings,
)

unless_all {ℓ} :
    {V : Type ℓ} (all : Bool) (k : Text) (m : Dict V) (b : Bool)
    → has_key k m ≡ (b || false)
    → has_key k (if all then [] else m) ≡ (if all then false else b)
unfolding has_key
unless_all true k m b h = refl
unless_all false k m b h = ground (arith, h)

-- The options of a service's container expose and bind the same ports: none if all ports are to be
-- published, else those of the service.
pub configure_service_container-ports :
    (srv : Service) (ops : Operation) (opts : CreateOptions) (k : Text)
    → configure_service_container srv ops ≡ options opts
    → (has_key k opts.config.exposed_ports
        ≡ (if ops.publish_all_ports then false else any_port k srv.ports))
      × (has_key k opts.host_config.port_bindings
          ≡ (if ops.publish_all_ports then false else any_port k srv.ports))
unfolding service_options has_key
configure_service_container-ports srv ops opts k h =
    let b = configure_service_container-Built srv ops opts h in
    (
      ap (λ o. has_key k o.config.exposed_ports) b.built
          ∙ unless_all ops.publish_all_ports k _ (any_port k srv.ports)
              (has_key-expose_ports k srv.ports []),
      ap (λ o. has_key k o.host_config.port_bindings) b.built
          ∙ unless_all ops.publish_all_ports k _ (any_port k srv.ports)
              (has_key-bind_ports k srv.ports []),
    )
