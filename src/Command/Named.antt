-- ===== src/Command/Named.antt =====
-- Commands that write the name of the request. The Go functions share the request by its pointer, so the
-- name that one leaves, also with an error, is part of the state.
use eris_cli.Strings.{Text}
use eris_cli.Docker.{DockerClient}
use eris_cli.Command.{Reply, returns, fails, crashes, waits, unending, Command}
use eris_cli.Command.World.{World}
use eris_cli.Command.Machine.{Machine, Site}

abbrev pub name_left : {A : Type 0} → Text → Reply A → Reply Text
name_left name (returns _) = returns name
name_left name (fails _) = returns name
name_left name crashes = crashes
name_left name waits = waits
name_left name unending = unending

module _ {S : Type 0} where
  -- A command that leaves the name.
  unfoldable pub on_named : {A : Type 0} → Command S A → Command (Text × S) A
  on_named m (name, s) = let (r, t) = m s in (r, (name, t))

  -- `do.Name = name`
  abbrev pub set_name : Text → Command (Text × S) (Unit {0})
  set_name name (_, s) = (returns tt, (name, s))

  -- A command on a request of this name, where nothing reads the name that is left.
  unfoldable pub forgetting : {A : Type 0} → Text → Command (Text × S) A → Command S A
  forgetting name m s = let (r, p) = m (name, s) in (r, p.1)

  -- A command on a request of this name whose error is dropped, with the name that it leaves.
  unfoldable pub leaving_name : {A : Type 0} → Text → Command (Text × S) A → Command S Text
  leaving_name name m s = let (r, p) = m (name, s) in (name_left p.0 r, p.1)

module _ (D : DockerClient) (M : Machine D) where
  -- A command on the daemon that writes the name.
  unfoldable pub in_named_world :
      {A : Type 0} → (World D → Command (Text × D.State) A) → Command (Text × Site D M) A
  in_named_world m (name, (s, f)) = let (r, p) = m (M.world f) (name, s) in (r, (p.0, (p.1, f)))
