-- ===== src/Merge/Overlay.antt =====
-- What a merge does, field by field.
pub mod Services
use eris_cli.Base.{
  ◌≡◌, refl, Bool, true, Option, none, some, List, [], ap, suc, ==_refl, ◌∷◌, ◌++◌, length,
  if◌then◌else◌,
}
use eris_cli.Base.Int.{ℤ, pos, int_eq}
use eris_cli.Strings.{Text}
use eris_cli.Dict.{Dict, insert_all}
use eris_cli.Definitions.{Operation}
use eris_cli.Merge.{
  Field, slice, dict, text, int, flag, struct, merged, merge, merge_fields, merge_field, merge_dict,
  operation_fields,
}

-- A text, a number or a flag of `over` wins unless it is zero.
pub text_over : Text → Text → Text
text_over a [] = a
text_over a (c ∷ b) = c ∷ b

pub int_over : ℤ → ℤ → ℤ
int_over a b = if int_eq b (pos 0) then a else b

pub flag_over : Bool → Bool → Bool
flag_over a b = if b then true else a

pub dict_over : Option (Dict Text) → Option (Dict Text) → Option (Dict Text)
dict_over a none = a
dict_over none (some b) = some b
dict_over (some a) (some b) = some (insert_all b a)

merge_text : (a b : Text) → merge_field (text a) (text b) ≡ some (text (text_over a b))
unfolding merge_field text_over
merge_text a [] = refl
merge_text a (c ∷ b) = refl

merge_dict_lem : (a b : Option (Dict Text)) → merge_dict a b ≡ dict_over a b
unfolding merge_dict dict_over
merge_dict_lem a none = refl
merge_dict_lem none (some b) = refl
merge_dict_lem (some a) (some b) = refl

-- The specification of a merge of operations.
unfoldable pub overlay_operation : Operation → Operation → Operation
overlay_operation a b = record {
  srv_container_name = text_over a.srv_container_name b.srv_container_name;
  srv_container_id = text_over a.srv_container_id b.srv_container_id;
  data_container_name = text_over a.data_container_name b.data_container_name;
  data_container_id = text_over a.data_container_id b.data_container_id;
  container_type = text_over a.container_type b.container_type;
  container_number = int_over a.container_number b.container_number;
  restart = text_over a.restart b.restart;
  remove = flag_over a.remove b.remove;
  privileged = flag_over a.privileged b.privileged;
  interactive = flag_over a.interactive b.interactive;
  follow = flag_over a.follow b.follow;
  app_name = text_over a.app_name b.app_name;
  docker_host_conn = text_over a.docker_host_conn b.docker_host_conn;
  volume = text_over a.volume b.volume;
  labels = dict_over a.labels b.labels;
  publish_all_ports = flag_over a.publish_all_ports b.publish_all_ports;
  cap_add = a.cap_add ++ b.cap_add;
  cap_drop = a.cap_drop ++ b.cap_drop;
  args = a.args ++ b.args;
}

merge_int : (a b : ℤ) → merge_field (int a) (int b) ≡ some (int (int_over a b))
unfolding merge_field int_over
merge_int a b = refl

merge_flag : (a b : Bool) → merge_field (flag a) (flag b) ≡ some (flag (flag_over a b))
unfolding merge_field flag_over
merge_flag a b = refl

merge_slice : (a b : List Text) → merge_field (slice a) (slice b) ≡ some (slice (a ++ b))
unfolding merge_field
merge_slice a b = refl

merge_labels :
    (a b : Option (Dict Text)) → merge_field (dict a) (dict b) ≡ some (dict (dict_over a b))
unfolding merge_field
merge_labels a b = rw (merge_dict_lem a b)

-- The third list holds what the rounds of the loop make of the fields of the first two.
abbrev Overlays : List Field → List Field → List Field → Type 0
Overlays [] [] [] = Unit
Overlays (a ∷ as') (b ∷ bs) (c ∷ cs) = (merge_field a b ≡ some c) × Overlays as' bs cs
Overlays _ _ _ = ⊥

merge_fields_lem :
    (as' bs cs : List Field)
    → Overlays as' bs cs
    → (merge_fields as' bs ≡ some cs) × (length as' ≡ length bs)
unfolding merge_fields
merge_fields_lem [] [] [] h = (refl, refl)
merge_fields_lem [] [] (c ∷ cs) h = absurd h
merge_fields_lem [] (b ∷ bs) cs h = absurd h
merge_fields_lem (a ∷ as') [] cs h = absurd h
merge_fields_lem (a ∷ as') (b ∷ bs) [] h = absurd h
merge_fields_lem (a ∷ as') (b ∷ bs) (c ∷ cs) (h, hs) =
    let (e, l) = merge_fields_lem as' bs cs hs in (rw (h, merge_fields) (rw e), ap suc l)

merge_struct :
    (as' bs cs : List Field) → Overlays as' bs cs → merge (struct as') (struct bs) ≡ merged cs
unfolding merge
merge_struct as' bs cs h =
    let (e, l) = merge_fields_lem as' bs cs h in rw (l, ==_refl (length bs)) (rw e)

-- Merging two operations neither fails nor panics, and overlays them: the texts, numbers and flags
-- of the second that are not zero replace those of the first, its lists are appended, and its
-- labels are added, where they win.
pub merge_operations :
    (a b : Operation)
    → merge (struct (operation_fields a)) (struct (operation_fields b))
      ≡ merged (operation_fields (overlay_operation a b))
unfolding operation_fields overlay_operation
merge_operations a b =
    merge_struct _ _ _
      (search (merge_text, merge_int, merge_flag, merge_slice, merge_labels) depth 30)
