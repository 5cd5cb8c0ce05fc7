-- ===== src/Merge.antt =====
-- `Merge` of util/container_operations.go, which walks the fields of two structs by reflection. A
-- struct is the list of its fields; only the kinds of field that `Operation` and `Service` have
-- occur. A `nil` slice and an empty one are one list.
pub mod Overlay
pub mod Struct
use eris_cli.Base.{
  ℕ, Bool, true, false, not, Option, none, some, List, [], ◌∷◌, ◌++◌, length, ◌==◌, if◌then◌else◌,
}
use eris_cli.Base.Int.{ℤ, pos, int_eq}
use eris_cli.Strings.{Text}
use eris_cli.Dict.{Dict, insert_all}
use mathlib.Core.Option
use eris_cli.Definitions.{Operation, Service}

pub data Field : Type 0 where
  slice : List Text → Field
  dict : Option (Dict Text) → Field
  text : Text → Field
  int : ℤ → Field
  flag : Bool → Field

-- An argument of type `interface{}`.
pub data Argument : Type 0 where
  nil_interface : Argument
  not_pointer : Argument
  not_struct : Argument
  struct : List Field → Argument

pub data Merged : Type 0 where
  err_merge_parameters : Merged
  panic : Merged
  merged : List Field → Merged

merge_dict : Option (Dict Text) → Option (Dict Text) → Option (Dict Text)
merge_dict a none = a
merge_dict none (some b) = some b
merge_dict (some a) (some b) = some (insert_all b a)

-- One round of the loop. `none` is a panic of the package `reflect` on fields of two types.
merge_field : Field → Field → Option Field
unfolding merge_dict
merge_field (slice a) (slice b) = some (slice (a ++ b))
merge_field (dict a) (dict b) = some (dict (merge_dict a b))
merge_field (text a) (text []) = some (text a)
merge_field (text a) (text (c ∷ b)) = some (text (c ∷ b))
merge_field (int a) (int b) = some (int (if int_eq b (pos 0) then a else b))
merge_field (flag a) (flag b) = some (flag (if b then true else a))
merge_field _ _ = none

merge_fields : List Field → List Field → Option (List Field)
merge_fields (a ∷ as') (b ∷ bs) = elim (merge_field a b) [
  | none ↦ none
  | some c ↦ Option.map (λ cs. c ∷ cs) (merge_fields as' bs)
]
merge_fields _ _ = some []

unfoldable pub merge : Argument → Argument → Merged
unfolding merge_fields merge_field
merge (struct base) (struct over) =
    if length base == length over
    then elim (merge_fields base over) [ none ↦ panic | some fields ↦ merged fields ]
    else err_merge_parameters
merge _ _ = err_merge_parameters

-- The fields of the two structs that the program merges, in the order of their declaration.
unfoldable pub operation_fields : Operation → List Field
operation_fields o =
    text o.srv_container_name
    ∷ text o.srv_container_id
    ∷ text o.data_container_name
    ∷ text o.data_container_id
    ∷ text o.container_type
    ∷ int o.container_number
    ∷ text o.restart
    ∷ flag o.remove
    ∷ flag o.privileged
    ∷ flag o.interactive
    ∷ flag o.follow
    ∷ text o.app_name
    ∷ text o.docker_host_conn
    ∷ text o.volume
    ∷ dict o.labels
    ∷ flag o.publish_all_ports
    ∷ slice o.cap_add
    ∷ slice o.cap_drop
    ∷ slice o.args
    ∷ []

unfoldable pub service_fields : Service → List Field
service_fields s =
    text s.name
    ∷ text s.image
    ∷ flag s.auto_data
    ∷ text s.command
    ∷ slice s.links
    ∷ slice s.ports
    ∷ slice s.expose
    ∷ slice s.volumes
    ∷ slice s.volumes_from
    ∷ slice s.environment
    ∷ slice s.env_file
    ∷ text s.net
    ∷ text s.pid
    ∷ slice s.dns
    ∷ slice s.dns_search
    ∷ text s.work_dir
    ∷ text s.entry_point
    ∷ text s.host_name
    ∷ text s.domain_name
    ∷ text s.user
    ∷ int s.cpu_shares
    ∷ int s.mem_limit
    ∷ text s.exec_host
    ∷ []
