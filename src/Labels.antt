-- ===== src/Labels.antt =====
-- util/container_labels.go, and `LoadDataDefinition` of loaders/data.go, which builds on it. The git
-- user is a parameter: `none` where `config.GitConfigUser` returns an error.
use eris_cli.Base.{Option, none, some, [], ◌++◌, if◌then◌else◌}
use eris_cli.Base.Int.{ℤ, pos, int_eq}
use eris_cli.Strings.{Text, codes}
use eris_cli.Strings.Decimal.{itoa}
use eris_cli.Dict.{Dict, insert}
use eris_cli.Names.{data_containers_name, type_data}
use eris_cli.Definitions.{
  Operation, blank_operation, label_eris, label_short_name, label_type, label_number, label_user,
}

abbrev pub or_empty : Option (Dict Text) → Dict Text
or_empty none = []
or_empty (some labels) = labels

-- The map that is returned. Where `ops.Labels` is not `nil` the same map is written.
unfoldable pub make_labels : Option Text → Text → Operation → Dict Text
make_labels git_user name ops =
    let labels = insert label_number (itoa ops.container_number) (
      insert label_type ops.container_type
        (insert label_short_name name (insert label_eris (codes "true") (or_empty ops.labels)))) in
    elim git_user [ none ↦ labels | some user ↦ insert label_user user labels ]

-- `SetLabel`
unfoldable pub set_label : Dict Text → Text → Text → Dict Text
set_label labels name value = insert (codes "eris:" ++ name) value labels

unfoldable pub load_data_definition : Option Text → Text → ℤ → Operation
unfolding make_labels
load_data_definition git_user data_name c_num =
    let number = if int_eq c_num (pos 0) then pos 1 else c_num in
    let name = data_containers_name data_name number in
    let ops : Operation = record blank_operation {
      container_number = number;
      container_type = type_data;
      srv_container_name = name;
      data_container_name = name;
    } in
    record ops { labels = some (make_labels git_user data_name ops) }
