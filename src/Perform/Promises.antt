-- ===== src/Perform/Promises.antt =====
-- What the program relies on of the Docker daemon, as hypotheses of the theorems that need it.
use eris_cli.Base.{◌≡◌, List, true}
use eris_cli.Docker.{
  ApiContainer, Container, CreateOptions, RemoveOptions, DockerError, DockerClient, done, failed,
}
use eris_cli.Listing.Listed.{Lists}

module _ (D : DockerClient) where
  -- A daemon that made a container lists it.
  abbrev pub ListsCreated : Type 0
  ListsCreated =
      (opts : CreateOptions) (c : Container) (before after : D.State)
      → D.create_container opts before ≡ (done c, after)
      → (contns : List ApiContainer) × (D.list_containers true after ≡ done contns)
        × Lists contns opts.name

  -- A container that the daemon says it removed is gone.
  abbrev pub ForgetsRemoved : Type 0
  ForgetsRemoved =
      (opts : RemoveOptions) (before : D.State)
      → (D.remove_container opts before).0 ≡ done tt
      → (e : DockerError) × (D.inspect_container opts.id (D.remove_container opts before).1
          ≡ failed e)
