-- ===== src/Listing/Ports.antt =====
-- `PrintPortMappings` of util/container_stats.go, as the lines that it prints.
use eris_cli.Base.{
  Bool, true, false, ◌||◌, Option, none, some, List, [], ◌∷◌, ◌++◌, map, if◌then◌else◌,
}
use eris_cli.Strings.{Text, codes, text_eq}
use eris_cli.Dict.{Dict, lookup}

-- `strings.HasSuffix`
unfoldable pub has_suffix : Text → Text → Bool
has_suffix [] suffix = text_eq [] suffix
has_suffix (c ∷ s) suffix = let later = has_suffix s suffix in text_eq (c ∷ s) suffix || later

-- A host's address and port.
pub record Binding : Type 0 where
  pub host_ip : Text
  pub host_port : Text

abbrev pub Exposed : Type 0
Exposed = Dict (List Binding)

-- A port without a protocol stands for both.
unfoldable pub normalized_ports : List Text → List Text
unfolding has_suffix
normalized_ports [] = []
normalized_ports (port ∷ ports) =
    let rest = normalized_ports ports in
    if has_suffix port (codes "/tcp") || has_suffix port (codes "/udp")
    then port ∷ rest
    else (port ++ codes "/tcp") ∷ (port ++ codes "/udp") ∷ rest

unfoldable pub port_line : Bool → Text → Binding → Text
port_line minimal port b =
    let binding = b.host_ip ++ (codes ":" ++ b.host_port) in
    if minimal then binding else port ++ (codes " -> " ++ binding)

abbrev pub bindings_or_none : Option (List Binding) → List Binding
bindings_or_none none = []
bindings_or_none (some bs) = bs

unfoldable pub port_lines : Bool → Exposed → List Text → List Text
unfolding port_line
port_lines minimal exposed [] = []
port_lines minimal exposed (port ∷ ports) =
    map (port_line minimal port) (bindings_or_none (lookup port exposed))
    ++ port_lines minimal exposed ports

abbrev pub keys : Exposed → List Text
keys [] = []
keys ((port, bs) ∷ exposed) = port ∷ keys exposed

abbrev only_one : List Text → Bool
only_one (port ∷ []) = true
only_one _ = false

-- The dictionary is in the order in which Go goes through it.
unfoldable pub port_mappings : Exposed → List Text → List Text
unfolding normalized_ports port_lines
port_mappings exposed [] = port_lines false exposed (normalized_ports (keys exposed))
port_mappings exposed (port ∷ ports) =
    port_lines (only_one (port ∷ ports)) exposed (normalized_ports (port ∷ ports))
