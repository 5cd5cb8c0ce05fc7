-- ===== src/Tests/Daemon.antt =====
-- A daemon in memory, which keeps its containers in a list, and two things that it does.
use eris_cli.Base.{
  ◌≡◌, refl, sym, ap, Bool, true, false, none, List, [], ◌∷◌, ◌++◌, if◌then◌else◌, Bool-cases, inl,
  inr,
}
use eris_cli.Base.Int.{pos}
use eris_cli.Strings.{Text, codes, text_eq}
use eris_cli.Docker.{
  ApiContainer, Container, CreateOptions, failure, Answer, done, failed, DockerClient,
}

pub record Entry : Type 0 where
  pub name : Text
  pub running : Bool
  pub container : Container

abbrev pub find : Text → List Entry → Answer Container
find name [] = failed (failure (codes "no such container"))
find name (e ∷ es) = if text_eq e.name name then done e.container else find name es

abbrev pub set_running : Text → Bool → List Entry → List Entry
set_running name running [] = []
set_running name running (e ∷ es) =
    (if text_eq e.name name then record e { running = running } else e)
    ∷ set_running name running es

abbrev pub drop_entry : Text → List Entry → List Entry
drop_entry name [] = []
drop_entry name (e ∷ es) =
    let rest = drop_entry name es in if text_eq e.name name then rest else e ∷ rest

abbrev pub listing_of : Entry → ApiContainer
listing_of e = record { id = e.name; names = (codes "/" ++ e.name) ∷ []; labels = [] }

abbrev pub list_entries : Bool → List Entry → List ApiContainer
list_entries all [] = []
list_entries true (e ∷ es) = listing_of e ∷ list_entries true es
list_entries false (e ∷ es) =
    let rest = list_entries false es in if e.running then listing_of e ∷ rest else rest

abbrev pub create : CreateOptions → List Entry → Answer Container × List Entry
create opts es =
    let made : Container = record {
      id = opts.name;
      config = opts.config;
      host_config = opts.host_config;
    } in
    elim (find opts.name es) [
      | done c ↦ (failed (failure (codes "conflict")), es)
      | failed e ↦
          (done made, es ++ record { name = opts.name; running = false; container = made } ∷ [])
    ]

-- What answers for a container that may be missing.
abbrev pub if_found : Text → List Entry → List Entry → Answer (Unit {0}) × List Entry
if_found name es after = elim (find name es) [
  | done c ↦ (done tt, after)
  | failed e ↦ (failed e, es)
]

abbrev pub memory : DockerClient
memory = record {
  State = List Entry;
  list_containers = λ all es. done (list_entries all es);
  inspect_container = λ name es. find name es;
  create_container = create;
  start_container = λ name host es. if_found name es (set_running name true es);
  stop_container = λ name timeout es. if_found name es (set_running name false es);
  remove_container = λ opts es. if_found opts.id es (drop_entry opts.id es);
  pull_image = λ opts es. (done tt, es);
  wait_container = λ name es. ((pos 0, none), es);
  write_logs = λ name follow tail es. (done tt, es);
}

pub dropped-find :
    (name : Text) (es : List Entry)
    → find name (drop_entry name es) ≡ failed (failure (codes "no such container"))
dropped-find name [] = refl
dropped-find name (e ∷ es) = elim (Bool-cases (text_eq e.name name)) [
  | inl same ↦ rw same (dropped-find name es)
  | inr other ↦ rw other (rw other (dropped-find name es))
]

pub if_found-done :
    (name : Text) (es after to : List Entry)
    → if_found name es after ≡ (done tt, to)
    → (c : Container) × (find name es ≡ done c) × (to ≡ after)
if_found-done name es after to h = from (find name es) h
  where
    from :
        (a : Answer Container)
        → (elim a as (λ _. Answer (Unit {0}) × List Entry) [
          | done c ↦ (done tt, after)
          | failed e ↦ (failed e, es)
        ])
          ≡ (done tt, to)
        → (c : Container) × (a ≡ done c) × (to ≡ after)
    from (done c) e = (c, refl, ap (λ p. p.1) (sym e))
    from (failed f) e = absurd (cc e)
