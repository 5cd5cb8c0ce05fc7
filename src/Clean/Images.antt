-- ===== src/Clean/Images.antt =====
-- `Clean`, `removeErisDir` and `removeErisImages` of util/clean.go. The daemon's calls for images and the
-- directory of the program are parameters, and so is the order in which Go goes through the map of tags.
use eris_cli.Base.{
  ◌≡◌, refl, Bool, true, false, not, ◌||◌, Option, none, some, List, [], ◌∷◌, ◌++◌, if◌then◌else◌,
}
use eris_cli.Strings.{Text, codes, contains}
use eris_cli.Docker.{DockerClient, Answer, done, failed}
use eris_cli.Perform.Action.{docker}
use eris_cli.Command.{
  Reply, returns, fails, perform_error, file_error, network_error, Command, give, fail, ◌>>=◌, ◌>>◌,
}
use eris_cli.Command.Machine.{Machine, Site, on_daemon, reading, must}
use eris_cli.Clean.{can_we_remove, default_clean}

pub record Image : Type 0 where
  pub id : Text
  pub repo_tags : List Text

-- The answers at the three prompts.
pub record Replies : Type 0 where
  pub to_containers : Text
  pub to_dir : Text
  pub to_images : Text

pub record ImageClient (D : DockerClient) : Type 0 where
  pub list_images : D.State → Option (List Image)
  pub remove_image : Text → D.State → Bool × D.State

-- The id of an image, once for each of its tags that has the program's name in it.
unfoldable pub tagged : Text → List Text → List Text
tagged id [] = []
tagged id (tag ∷ tags) =
    let rest = tagged id tags in if contains tag (codes "eris") then id ∷ rest else rest

unfoldable pub eris_image_ids : List Image → List Text
unfolding tagged
eris_image_ids [] = []
eris_image_ids (image ∷ images) = tagged image.id image.repo_tags ++ eris_image_ids images

module _ (D : DockerClient) (I : ImageClient D) where
  open I use {list_images, remove_image}

  unfoldable pub remove_images : List Text → Command D.State (Unit {0})
  remove_images [] s = (returns tt, s)
  remove_images (id ∷ ids) s =
      let (fine, t) = remove_image id s in
      if fine then remove_images ids t else (fails network_error, t)

  unfoldable pub remove_eris_images :
      (List Image → List Image) → Bool → Text → Command D.State (Unit {0})
  unfolding eris_image_ids remove_images
  remove_eris_images order prompt reply s = elim (list_images s) [
    | none ↦ (fails network_error, s)
    | some images ↦
        if not prompt || can_we_remove reply
        then remove_images (eris_image_ids (order images)) s
        else (returns tt, s)
  ]

  -- An image that was removed cannot be removed again.
  abbrev ForgetsImages : Type 0
  ForgetsImages =
      (id : Text) (s t : D.State) → remove_image id s ≡ (true, t) → (remove_image id t).0 ≡ false

  -- If the first image has two tags of the program in front, then the removal of the images fails at
  -- that image, which it has removed.
  pub remove_eris_images-twice :
      (order : List Image → List Image) (reply : Text) (images rest : List Image) (image : Image)
      (a b : Text) (tags : List Text) (s t : D.State)
      → ForgetsImages
      → list_images s ≡ some images
      → order images ≡ image ∷ rest
      → image.repo_tags ≡ a ∷ b ∷ tags
      → contains a (codes "eris") ≡ true
      → contains b (codes "eris") ≡ true
      → remove_image image.id s ≡ (true, t)
      → remove_eris_images order false reply s ≡ (fails network_error, (remove_image image.id t).1)
  unfolding remove_eris_images eris_image_ids tagged remove_images
  remove_eris_images-twice order reply images rest image a b tags s t forgets lists first two has_a
        has_b removed =
      rw
        (lists, first, two, has_a, has_b, removed, forgets image.id s t removed, remove_eris_images)
        refl

abbrev cleaned : Answer (Unit {0}) → Reply (Unit {0})
cleaned (done u) = returns u
cleaned (failed e) = fails (perform_error (docker e))

module _ (D : DockerClient) (M : Machine D) (I : ImageClient D) where
  -- `readable` is whether the program's directory `root` can be read.
  unfoldable pub remove_eris_dir :
      (M.Files → Bool) → Text → Bool → Text → Command (Site D M) (Unit {0})
  remove_eris_dir readable root prompt reply = do
    fine ← reading readable
    let remove =
        if not prompt || can_we_remove reply then must file_error (M.remove_all root) else give tt
    if fine then remove else fail file_error

  -- The containers always; "all" stands for the directory and the images.
  unfoldable pub clean :
      (List Image → List Image)
      → (M.Files → Bool)
      → Text
      → Bool
      → Bool
      → Bool
      → Bool
      → Replies
      → Command (Site D M) (Unit {0})
  unfolding remove_eris_dir remove_eris_images
  clean order readable root prompt all rmd images replies = do
    on_daemon (λ s.
        let (answer, t) = default_clean D prompt replies.to_containers s in (cleaned answer, t))
    if rmd || all then remove_eris_dir readable root prompt replies.to_dir else give tt
    if images || all
        then on_daemon (remove_eris_images D I order prompt replies.to_images)
        else give tt
