-- ===== src/Listing/Reports.antt =====
-- What the commands `ls` show (util/listing_functions.go). A table of containers is a parameter.

pub mod Shown
use eris_cli.Base.{Bool, true, false, ◌||◌, Option, none, some, List, [], ◌∷◌, ◌++◌, if◌then◌else◌}
use eris_cli.Strings.{Text, codes, text_eq, join}
use eris_cli.Definitions.Do.{Do}
use eris_cli.Docker.{DockerClient}
use eris_cli.Files.{config_files}
use eris_cli.Head.{HeadFile, get_head}
use eris_cli.Listing.{service_container_names, chain_container_names, data_container_names}

abbrev pub lines : List Text → Text
lines names = join names (codes "\n")

-- The name at the head is "" where the file cannot be read or names none.
unfoldable pub head_name : HeadFile → Text
unfolding get_head
head_name f = elim (get_head f) [ none ↦ [] | some head ↦ head ]

unfoldable pub mark_head : Text → Text → Text
mark_head head c = if text_eq c head then b'*' ∷ c else c

unfoldable pub mark_chains : Text → List Text → List Text
unfolding mark_head
mark_chains head [] = []
mark_chains head (c ∷ chns) =
    let rest = mark_chains head chns in
    if text_eq c (codes "default") then rest else mark_head head c ∷ rest

unfoldable pub list_known : (Text → Text → List Text) → HeadFile → Text → Text
unfolding mark_chains head_name
list_known glob f typ =
    if text_eq typ (codes "chains")
    then lines (mark_chains (head_name f) (config_files glob typ false))
    else lines (config_files glob typ false)

-- `PrintTableReport` on a type, its two flags and the state; `none` stands for its error.
abbrev pub TableReport : Type 0 → Type 0
TableReport S = Text → Bool → Bool → S → Option Text

abbrev pub or_no_table : Option Text → Text
or_no_table none = []
or_no_table (some table) = table

pub data Report : Type 0 where
  printed : Text → Report
  report_failed : Report
  -- what the command leaves in `do.Result`
  result : Text → Report

abbrev pub full_report : Option Text → Report
full_report none = report_failed
full_report (some t) = printed t

-- `len(do.Operations.Args) != 0 && do.Operations.Args[0] == "testing"`
unfoldable pub is_testing : List Text → Bool
is_testing [] = false
is_testing (arg ∷ args) = text_eq arg (codes "testing")

module _ (D : DockerClient) (table : TableReport D.State) where
  unfoldable pub list_names : Bool → Text → D.State → Text
  unfolding service_container_names chain_container_names data_container_names
  list_names existing typ s =
      if text_eq typ (codes "services")
      then lines (service_container_names D s existing)
      else if text_eq typ (codes "chains")
      then lines (chain_container_names D s existing)
      else if text_eq typ (codes "data")
      then lines (data_container_names D s)
      else []

  unfoldable pub list_tables : Bool → Text → D.State → Text
  unfolding data_container_names
  list_tables existing typ s =
      if text_eq typ (codes "services")
      then or_no_table (table (codes "service") existing false s)
      else if text_eq typ (codes "chains")
      then or_no_table (table (codes "chain") existing false s)
      else if text_eq typ (codes "data")
      then lines (data_container_names D s)
      else []

  unfoldable pub list_running_or_existing : Bool → Bool → Bool → Text → D.State → Text
  unfolding list_names list_tables
  list_running_or_existing quiet testing existing typ s =
      if quiet || testing then list_names existing typ s else list_tables existing typ s

  module _ (glob : Text → Text → List Text) (f : HeadFile) where
    -- The last flag that is set decides the result.
    unfoldable pub list_selected : Do → Text → D.State → Text → Text
    unfolding list_known list_running_or_existing is_testing
    list_selected asked typ s before =
        let list = list_running_or_existing asked.quiet (is_testing asked.operations.args) in
        let known = if text_eq typ (codes "data") then [] else list_known glob f typ in
        let first = if asked.known then known else before in
        let second = if asked.running then list false typ s else first in
        if asked.existing then list true typ s else second

    -- `before` is the `do.Result` that the command is called with.
    unfoldable pub list_all : Do → Text → D.State → Text → Report
    unfolding list_selected
    list_all asked typ s before =
        let all = full_report (table typ true true s) in
        if asked.all then all else result (list_selected asked typ s before)
