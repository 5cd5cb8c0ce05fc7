-- ===== src/Head.antt =====
-- The HEAD file of util/chains_info.go, a stack of chain names with one name to a line, and the
-- commands `chains checkout` and `chains current` of chains/manage.go.
pub mod Stack
use eris_cli.Base.{
  ℕ, ◌-◌, Bool, true, false, not, ◌&&◌, Option, none, some, [], ◌∷◌, ◌++◌, length, take, leb,
  if◌then◌else◌,
}
use eris_cli.Strings.{Text, codes, text_eq, split, join}
use eris_cli.Files.{first_or}

-- The file, or `none` if it cannot be read, and whether it can be written.
pub record HeadFile : Type 0 where
  pub content : Option Text
  pub writable : Bool

pub data Outcome : Type 0 where
  success failure : Outcome

-- `none` stands for the empty name that is returned with an error.
unfoldable pub get_head : HeadFile → Option Text
get_head f = elim f.content [
  | none ↦ none
  | some s ↦ let head = first_or [] (split s b'\n') in if text_eq head [] then none else some head
]

module _ (max_head : ℕ) (is_known : Text → Bool) where
  write_head : Text → HeadFile → Text → Outcome × HeadFile
  write_head name f b =
      let bspl = split b b'\n' in
      let bsp =
        if leb max_head (length bspl) then join (take (max_head - 1) bspl) (codes "\n") else b in
      if f.writable
      then (success, record f { content = some (name ++ (codes "\n" ++ bsp)) })
      else (failure, f)

  unfoldable pub change_head : Text → HeadFile → Outcome × HeadFile
  unfolding write_head
  change_head name f =
      if not (is_known name) && not (text_eq name [])
      then (success, f)
      else elim f.content [ none ↦ (failure, f) | some b ↦ write_head name f b ]

  unfoldable pub null_head : HeadFile → Outcome × HeadFile
  unfolding change_head
  null_head f = change_head [] f

  -- The result is `do.Result`, with the outcome and the file.
  unfoldable pub checkout_chain : Text → HeadFile → Text × (Outcome × HeadFile)
  unfolding null_head change_head
  checkout_chain [] f = (codes "nil", null_head f)
  checkout_chain (c ∷ name) f = elim (get_head f) [
    | none ↦ ([], change_head (c ∷ name) f)
    | some cur_head ↦
        if text_eq (c ∷ name) cur_head
        then (codes "no change", (success, f))
        else ([], change_head (c ∷ name) f)
  ]

unfoldable pub current_chain : HeadFile → Text
unfolding get_head
current_chain f = elim (get_head f) [
  | none ↦ codes "There is no chain checked out."
  | some head ↦ head
]
