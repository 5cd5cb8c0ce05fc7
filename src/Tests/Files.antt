-- ===== src/Tests/Files.antt =====
-- The HEAD file, and merges.
use eris_cli.Base.{
  ◌≡◌, refl, ◌≤◌, inl, length, take, Bool, true, some, List, [], ◌∷◌, arith, if◌then◌else◌,
}
use eris_cli.Base.Int.{pos}
use eris_cli.Strings.{Text, codes, text_eq, split}
use eris_cli.Definitions.{Operation, blank_operation, Service, blank_service}
use eris_cli.Head.{HeadFile, success, get_head, change_head}
use eris_cli.Head.Stack.{stack, change_head_pushes, change_head_bounded}
use eris_cli.Merge.{struct, merged, merge, operation_fields}
use eris_cli.Merge.Overlay.{overlay_operation, merge_operations}

abbrev is_main : Text → Bool
is_main name = text_eq name (codes "main")

abbrev head : HeadFile
head = record { content = some (codes "old\nolder\n"); writable = true }

change_head_pushes_example :
    let (outcome, g) = change_head 3 is_main (codes "main") head in
    (outcome ≡ success)
    × (stack g ≡ codes "main" ∷ take 2 (stack head))
    × (get_head g ≡ some (codes "main"))
    × (length (stack g) ≤ 3)
unfolding text_eq
change_head_pushes_example =
    change_head_pushes 3 is_main (codes "main") head (codes "old\nolder\n") (omega arith) (inl refl)
      (omega arith) refl refl

change_head_bounded_example : length (stack (change_head 3 is_main (codes "main") head).1) ≤ 3
unfolding stack eris_cli.Strings.split
change_head_bounded_example =
    change_head_bounded 3 is_main (codes "main") head (omega arith) (omega arith) (omega arith)

abbrev over : Operation
over = record blank_operation {
  container_number = pos 2;
  labels = some ((codes "a", codes "2") ∷ []);
}

abbrev under : Operation
under = record blank_operation {
  container_type = codes "service";
  labels = some ((codes "a", codes "1") ∷ []);
}

merge_operations_example :
    merge (struct (operation_fields under)) (struct (operation_fields over))
    ≡ merged (operation_fields (overlay_operation under over))
merge_operations_example = merge_operations under over

abbrev first_service : Service
first_service = record blank_service { name = codes "a"; ports = codes "80" ∷ [] }

abbrev second_service : Service
second_service = record blank_service {
  image = codes "b";
  ports = codes "443" ∷ [];
  auto_data = true;
}

-- Three definition files of chains.
abbrev chain_files : Text → Text → List Text
chain_files typ pattern =
    if text_eq pattern (codes "*.toml")
    then codes "/c/default.toml" ∷ codes "/c/main.toml" ∷ codes "/c/old.toml" ∷ []
    else []
