-- ===== src/Clean.antt =====
-- `defaultClean` and `canWeRemove` of util/clean.go. Directories and images are in Clean/Images.

pub mod Removals
pub mod Images
use eris_cli.Base.{Bool, true, false, not, ◌||◌, Option, none, some, List, [], ◌∷◌, if◌then◌else◌}
use eris_cli.Strings.{Text, codes, text_eq, any_text}
use eris_cli.Dict.{lookup}
use eris_cli.Definitions.{label_eris}
use eris_cli.Docker.{ApiContainer, RemoveOptions, DockerClient, Answer, done, failed}

-- The line that `Scanln` reads is an assent.
unfoldable pub can_we_remove : Text → Bool
can_we_remove reply =
    any_text reply (codes "Y" ∷ codes "y" ∷ codes "YES" ∷ codes "Yes" ∷ codes "yes" ∷ [])

-- `container.Labels["eris:ERIS"] == "true"`
unfoldable pub is_eris : ApiContainer → Bool
is_eris container = elim (lookup label_eris container.labels) [
  | none ↦ false
  | some value ↦ text_eq value (codes "true")
]

abbrev pub by_force : ApiContainer → RemoveOptions
by_force container = record { id = container.id; remove_volumes = true; force = true }

abbrev pub containers_or_none : Answer (List ApiContainer) → List ApiContainer
containers_or_none (done cs) = cs
containers_or_none (failed e) = []

module _ (D : DockerClient) where
  unfoldable pub remove_labelled : List ApiContainer → D.State → Answer (Unit {0}) × D.State
  unfolding is_eris
  remove_labelled [] s = (done tt, s)
  remove_labelled (c ∷ cs) s =
      if is_eris c
      then (let (answer, t) = D.remove_container (by_force c) s in
          elim answer [ done _ ↦ remove_labelled cs t | failed e ↦ (failed e, t) ])
      else remove_labelled cs s

  -- An error of the listing is only printed.
  unfoldable pub default_clean : Bool → Text → D.State → Answer (Unit {0}) × D.State
  unfolding can_we_remove remove_labelled
  default_clean prompt reply s =
      let contns = containers_or_none (D.list_containers true s) in
      if not prompt || can_we_remove reply then remove_labelled contns s else (done tt, s)
