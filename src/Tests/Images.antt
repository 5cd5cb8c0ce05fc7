-- ===== src/Tests/Images.antt =====
-- The options of services.
use eris_cli.Base.{◌≡◌, refl, true, []}
use eris_cli.Strings.{Text, codes, text_eq, is_some}
use eris_cli.Docker.{CreateOptions, never_restart}
use eris_cli.Configure.{
  blank_options, pull_options, configure_volumes_from_container, configure_service_container,
  service_options,
}
use eris_cli.Configure.Service.Ports.{has_key, configure_service_container-ports}
use eris_cli.Base.{true}
use eris_cli.Tests.Containers.{srv, ops}

abbrev configured : CreateOptions
configured = service_options srv ops never_restart []

configure_service_container-ports_example :
    (has_key (codes "80/tcp") configured.config.exposed_ports ≡ true)
    × (has_key (codes "80/tcp") configured.host_config.port_bindings ≡ true)
unfolding configure_service_container text_eq eris_cli.Strings.contains
    eris_cli.Configure.Service.Ports.any_port eris_cli.Dependency.port_and_protocol
    eris_cli.Strings.split
configure_service_container-ports_example =
    configure_service_container-ports srv ops configured (codes "80/tcp") refl
