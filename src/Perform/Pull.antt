-- ===== src/Perform/Pull.antt =====
-- Images: what is pulled, and when.
use eris_cli.Base.{
  ◌≡◌, refl, ◌||◌, ◌∷◌, ◌++◌, arith, All-append, if◌then◌else◌, Bool-cases, inl, inr,
}
use eris_cli.Strings.{Text, codes}
use eris_cli.Strings.Laws.{Lacks, split-append, split_lacking}
use eris_cli.Docker.{DockerClient, CreateOptions, Answer, done, failed, no_such_image}
use eris_cli.Configure.{pull_options}
use eris_cli.Perform.Action.{Env, Session, err, docker, pull_refused, call}
use eris_cli.Perform.Calls.{create_container, assents}

-- For a repository with no colon and a tag with none, `repository:tag` is pulled by that tag and
-- the repository alone by the tag `latest`.
pub pull_options-tagged :
    (repository tag : Text)
    → Lacks b':' repository
    → Lacks b':' tag
    → ((pull_options (repository ++ b':' ∷ tag)).repository ≡ repository)
      × ((pull_options (repository ++ b':' ∷ tag)).tag ≡ tag)
      × ((pull_options repository).repository ≡ repository)
      × ((pull_options repository).tag ≡ codes "latest")
unfolding pull_options
pull_options-tagged repository tag h k =
    rw
      (
        split-append repository tag b':' h,
        split_lacking repository b':' h,
        split_lacking tag b':' k,
      )
      (refl, refl, refl, refl)

-- For an image of a registry with a port, `host:port/path`, the host alone is pulled as the
-- repository, by the tag `port/path`.
pub pull_options_confuses :
    (host port path : Text)
    → Lacks b':' host
    → Lacks b':' port
    → Lacks b':' path
    → ((pull_options (host ++ b':' ∷ (port ++ b'/' ∷ path))).repository ≡ host)
      × ((pull_options (host ++ b':' ∷ (port ++ b'/' ∷ path))).tag ≡ port ++ b'/' ∷ path)
pull_options_confuses host port path h k l =
    let (repository, tag, _, _) =
      pull_options-tagged host (port ++ b'/' ∷ path) h (All-append _ port _ k ((omega arith), l)) in
    (repository, tag)

module _ (D : DockerClient) (env : Env D) where
  open env use {pull_approve, reply}

  -- Creating a container whose image the daemon lacks: without the user's assent it fails with the
  -- refusal and calls the daemon no more; with it the image is pulled, and if that succeeds the
  -- container is created again, else the error of the pull is returned.
  pub create_container-lacking_image :
      (opts : CreateOptions) (s : Session D) (tried pulled : D.State) (answer : Answer (Unit {0}))
      → D.create_container opts s.daemon ≡ (failed no_such_image, tried)
      → D.pull_image (pull_options opts.config.image) tried ≡ (answer, pulled)
      → create_container D env opts s ≡ (
          if pull_approve || assents D env reply
          then elim answer [
            | done _ ↦ call D (D.create_container opts) (record s { daemon = pulled })
            | failed e ↦ (err (docker e), record s { daemon = pulled })
          ]
          else (err pull_refused, record s { daemon = tried }))
  unfolding create_container call
  create_container-lacking_image opts s tried pulled (done u) h k =
      elim (Bool-cases (pull_approve || assents D env reply)) [
        | inl assent ↦ rw (h, assent, k) refl
        | inr refusal ↦ rw (h, refusal) refl
      ]
  create_container-lacking_image opts s tried pulled (failed e) h k =
      elim (Bool-cases (pull_approve || assents D env reply)) [
        | inl assent ↦ rw (h, assent, k) refl
        | inr refusal ↦ rw (h, refusal) refl
      ]
