-- ===== src/Data/Transfer/Ends.antt =====
-- The recursion of `ImportData` ends.
use eris_cli.Base.{
  ◌≡◌, ◌≢◌, refl, ap, subst, ◌∙◌, inl, inr, Bool, true, false, Bool-cases, none, some, Option-cases,
  ℕ, suc, ◌++◌, ◌||◌,
}
use eris_cli.Strings.{codes, is_some}
use eris_cli.Definitions.{Operation, blank_service}
use eris_cli.Definitions.Do.{Do}
use eris_cli.Docker.{
  ApiContainer, CreateOptions, Container, Answer, done, failed, no_such_image, failure,
  DockerClient,
}
use eris_cli.Listing.{parse_containers, is_data_container}
use eris_cli.Listing.Patterns.{IsLine, eris_reg_exp_any}
use eris_cli.Listing.Listed.{parse_containers-Lists}
use eris_cli.Configure.{configure_data_container}
use eris_cli.Labels.{load_data_definition}
use eris_cli.Perform.Action.{
  Env, Session, Error, Result, ok, err, panics, blocks, call, raise, pure, ask,
}
use eris_cli.Perform.Calls.{create_container, after_create, assents, pull_image, find_existing}
use eris_cli.Perform.Data.{docker_create_data}
use eris_cli.Perform.Promises.{ListsCreated}
use eris_cli.Perform.Steps.{continue-ok, returned-done}
use eris_cli.Command.{
  Failure, Reply, returns, fails, crashes, waits, unending, perform_error, network_error, Command,
  fail, query, follow, perform, result_reply, ◌>>=◌,
}
use eris_cli.Command.Machine.{Machine, Site, must, ended_with}
use eris_cli.Data.{pretend_to_be_a_service}
use eris_cli.Data.Transfer.{send_archive, own_files, import_into, create_asked, import_data}

module _ (D : DockerClient) (env : Env D) where
  open env use {pull_approve, reply}

  abbrev Created : CreateOptions → Container → D.State → Type 0
  Created opts c after = (before : D.State) × (D.create_container opts before ≡ (done c, after))

  called-Created :
      (opts : CreateOptions) (c : Container) (s t : Session D)
      → call D (D.create_container opts) s ≡ (ok c, t)
      → Created opts c t.daemon
  unfolding call
  called-Created opts c s t h =
      let ran = D.create_container opts s.daemon in
      (
        s.daemon,
        λ i. (
          returned-done D ran.0 c (ap (λ p. p.0) h) i,
          (ap (λ (p : Result Container × Session D). p.1.daemon) h) i,
        ),
      )

  after_create-Created :
      (opts : CreateOptions) (answer : Answer Container) (c : Container) (before : D.State)
      (s t : Session D)
      → D.create_container opts before ≡ (answer, s.daemon)
      → after_create D env opts answer s ≡ (ok c, t)
      → Created opts c t.daemon
  unfolding after_create pure raise
  after_create-Created opts (done a) c before s t h k = (
    before,
    h ∙ (λ i. (done (same i), (ap (λ (p : Result Container × Session D). p.1.daemon) k) i)),
  )
    where
      same : a ≡ c
      same = cc k
  after_create-Created opts (failed (failure e)) c before s t h k = absurd (cc k)
  after_create-Created opts (failed no_such_image) c before s t h k =
      elim (Bool-cases (pull_approve || assents D env reply)) [
        | inr refusal ↦ absurd (cc (rw refusal at k))
        | inl assent ↦
            let pulled = pull_image D env opts.config.image s in
            let (u, _, rest) =
              continue-ok pulled.0 (λ _. call D (D.create_container opts)) pulled.1 t c
                (rw assent at k) in
            called-Created opts c pulled.1 t rest
      ]

  -- A container that was created was made by the last call, which left the state.
  create_container-Created :
      (opts : CreateOptions) (c : Container) (s t : Session D)
      → create_container D env opts s ≡ (ok c, t)
      → Created opts c t.daemon
  unfolding create_container ask
  create_container-Created opts c s t h =
      let tried = D.create_container opts s.daemon in
      after_create-Created opts tried.0 c s.daemon (record s { daemon = tried.1 }) t refl h

  -- After a data container was created, `ParseContainers` finds one of its name.
  docker_create_data-found :
      (s t : Session D)
      → ListsCreated D
      → IsLine s.ops.data_container_name
      → eris_reg_exp_any (codes "/" ++ s.ops.data_container_name) ≡ true
      → docker_create_data D env s ≡ (ok tt, t)
      → is_some (parse_containers D t.daemon s.ops.data_container_name true) ≡ true
  unfolding docker_create_data find_existing configure_data_container pure raise
  docker_create_data-found s t lists line valid h =
      elim (Option-cases (parse_containers D s.daemon s.ops.srv_container_name true)) [
        | inr (c, found) ↦ absurd (cc (rw (found, docker_create_data, find_existing, raise) at h))
        | inl missing ↦
            let opts = configure_data_container blank_service s.ops none in
            let ran = create_container D env opts s in
            let (c, e, rest) =
              continue-ok ran.0 (λ _. pure D tt) ran.1 t tt
                (rw (missing, docker_create_data, find_existing) at h) in
            let (before, made) = create_container-Created opts c s ran.1 (λ i. (e i, ran.1)) in
            let (contns, listing, listed) = lists opts c before ran.1.daemon made in
            let found =
              parse_containers-Lists D ran.1.daemon s.ops.data_container_name true contns line valid
                listing listed in
            subst
              (λ (u : Session D).
                is_some (parse_containers D u.daemon s.ops.data_container_name true) ≡ true)
              (ap (λ p. p.1) rest) found
      ]

-- The command comes to something.
abbrev Ends : {S A : Type 0} → Command S A → Type 0
Ends {S} m = (s : S) → (m s).0 ≢ unending

module _ {S A B : Type 0} where
  follow-Ends :
      (r : Reply A) (f : A → Command S B) (s : S)
      → r ≢ unending
      → ((a : A) → Ends (f a))
      → (follow r f s).0 ≢ unending
  follow-Ends (returns a) f s h k = k a s
  follow-Ends (fails e) f s h k = λ p. cc p
  follow-Ends crashes f s h k = λ p. cc p
  follow-Ends waits f s h k = λ p. cc p
  follow-Ends unending f s h k = absurd (h refl)

  bind-Ends :
      (m : Command S A) (f : A → Command S B) → Ends m → ((a : A) → Ends (f a)) → Ends (m >>= f)
  bind-Ends m f h k s = follow-Ends (m s).0 f (m s).1 (h s) k

result_reply-ends :
    (wrap : Error → Failure) (r : Result (Unit {0})) → result_reply wrap r ≢ unending
result_reply-ends wrap (ok u) = λ p. cc p
result_reply-ends wrap (err e) = λ p. cc p
result_reply-ends wrap panics = λ p. cc p
result_reply-ends wrap blocks = λ p. cc p

ended_with-ends : (e : Failure) (b : Bool) → ended_with e b ≢ unending
ended_with-ends e true = λ p. cc p
ended_with-ends e false = λ p. cc p

module _ (D : DockerClient) (M : Machine D) where
  send_archive-Ends : (asked : Do) (c : ApiContainer) → Ends (send_archive D M asked c)
  unfolding send_archive must fail
  send_archive-Ends asked c (s, f) = elim (Option-cases (M.tar asked.source f)) [
    | inl missing ↦ rw (missing, send_archive) (λ p. cc p)
    | inr (a, packed) ↦ rw (packed, send_archive) (ended_with-ends network_error _)
  ]

  own_files-Ends : (asked : Do) → Ends (own_files D M asked)
  unfolding own_files eris_cli.Command.Machine.in_world perform
  own_files-Ends asked (s, f) = result_reply-ends perform_error _

  import_into-Ends : (asked : Do) → Ends (import_into D M asked)
  unfolding import_into eris_cli.Command.Machine.on_daemon query fail
  import_into-Ends asked (s, f) =
      let srv = pretend_to_be_a_service asked.name asked.operations.container_number in
      elim (Option-cases (parse_containers D s srv.operations.srv_container_name true)) [
        | inl missing ↦ rw (missing, import_into) (λ p. cc p)
        | inr (c, found) ↦
            rw (found, import_into)
              (bind-Ends (send_archive D M asked c) (λ _. own_files D M asked)
                (send_archive-Ends asked c) (λ _. own_files-Ends asked) (s, f))
      ]

  -- The operation that the data container of a request is made with.
  abbrev pub asked_data : Do → M.Files → Operation
  asked_data asked f =
      load_data_definition (M.world f).sources.git_user asked.name asked.operations.container_number

  import_known :
      (fuel : ℕ) (asked : Do) (s : D.State) (f : M.Files)
      → is_data_container D s asked.name asked.operations.container_number ≡ true
      → (import_data D M (suc fuel) asked (s, f)).0 ≢ unending
  unfolding import_data eris_cli.Command.Machine.on_daemon query
  import_known fuel asked s f known = rw (known, import_data) (import_into-Ends asked (s, f))

  abbrev making : Do → M.Files → D.State → Session D
  making asked f s = record { daemon = s; srv = blank_service; ops = asked_data asked f }

  -- In the second round the container is there, so that it is not made again.
  second_round :
      (asked : Do) (s : D.State) (f : M.Files) (c : ApiContainer)
      → parse_containers D s (asked_data asked f).data_container_name true ≡ some c
      → (import_data D M 1 asked (s, f)).0 ≢ unending
  unfolding import_data create_asked perform docker_create_data find_existing raise
      eris_cli.Command.Machine.on_daemon eris_cli.Command.Machine.in_world query
      load_data_definition
  second_round asked s f c found =
      elim (Bool-cases (is_data_container D s asked.name asked.operations.container_number)) [
        | inl known ↦ import_known 0 asked s f known
        | inr unknown ↦ rw (unknown, found, import_data) (λ p. cc p)
      ]

  after_creation :
      (asked : Do) (s : D.State) (f : M.Files) (r : Result (Unit {0})) (t : Session D)
      → ListsCreated D
      → IsLine (asked_data asked f).data_container_name
      → eris_reg_exp_any (codes "/" ++ (asked_data asked f).data_container_name) ≡ true
      → docker_create_data D (M.world f).env (making asked f s) ≡ (r, t)
      → (follow (result_reply perform_error r) (λ _. import_data D M 1 asked) (t.daemon, f)).0
        ≢ unending
  after_creation asked s f (ok tt) t lists line valid h =
      let found =
        docker_create_data-found D (M.world f).env (making asked f s) t lists line valid h in
      elim (Option-cases
        (parse_containers D t.daemon (asked_data asked f).data_container_name true)) [
          | inl missing ↦ absurd (cc (rw missing at found))
          | inr (c, there) ↦ second_round asked t.daemon f c there
        ]
  after_creation asked s f (err e) t lists line valid h = λ p. cc p
  after_creation asked s f panics t lists line valid h = λ p. cc p
  after_creation asked s f blocks t lists line valid h = λ p. cc p

  -- `ImportData` calls itself once at most: two rounds are enough, if the daemon lists a container that
  -- it made and the container's name is one of the program's.
  pub import_data-ends :
      (asked : Do) (s : D.State) (f : M.Files)
      → ListsCreated D
      → IsLine (asked_data asked f).data_container_name
      → eris_reg_exp_any (codes "/" ++ (asked_data asked f).data_container_name) ≡ true
      → (import_data D M 2 asked (s, f)).0 ≢ unending
  unfolding import_data create_asked perform eris_cli.Command.Machine.on_daemon
      eris_cli.Command.Machine.in_world query
  import_data-ends asked s f lists line valid =
      elim (Bool-cases (is_data_container D s asked.name asked.operations.container_number)) [
        | inl known ↦ import_known 1 asked s f known
        | inr unknown ↦
            let ran = docker_create_data D (M.world f).env (making asked f s) in
            rw (unknown, import_data) (after_creation asked s f ran.0 ran.1 lists line valid refl)
      ]
