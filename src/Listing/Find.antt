-- ===== src/Listing/Find.antt =====
-- What the searches by short name and number find.
use eris_cli.Base.{
  ℕ, ◌≡◌, refl, ◌≢◌, Bool, ◌≤◌, ap, true, false, ◌&&◌, Bool-cases, none, some, List, [], ◌∷◌, ◌++◌,
  arith, append_assoc, All, All-append, ◌⊎◌, inl, inr, sym,
}
use eris_cli.Base.Int.{ℤ, pos, int_eq, int_eq_iff, max_int}
use eris_cli.Strings.{Text, codes, text_eq, replace_first}
use eris_cli.Strings.Laws.{Lacks, text_eq_iff}
use eris_cli.Names.{ContainerName, container_assemble}
use eris_cli.Names.RoundTrip.{disassemble-assemble, itoa-Lacks_slash}
use eris_cli.Strings.Decimal.{itoa, itoa-cons}
use eris_cli.Docker.{ApiContainer, DockerClient, done}
use eris_cli.Listing.Patterns.{
  IsLine, type_prefix, eris_reg_exp, eris_reg_exp_links, eris_reg_exp_lem,
  eris_reg_exp_links_lacking,
}
use eris_cli.Listing.{
  collect_names, collect_containers, listed, find_numbered, eris_containers_by_type,
}

abbrev pub Among : ContainerName → List ContainerName → Type 0
Among c [] = ⊥
Among c (d ∷ cs) = (c ≡ d) ⊎ Among c cs

-- A search by short name and number returns a container of the list that has both, and it returns
-- nothing only if no container of the list has both.
pub find_numbered_exact :
    (name : Text) (number : ℤ) (cs : List ContainerName)
    → ((c : ContainerName)
        → find_numbered name number cs ≡ some c
        → (c.short_name ≡ name) × (c.number ≡ number) × Among c cs)
      × (find_numbered name number cs ≡ none
          → All (λ c. ¬ ((c.short_name ≡ name) × (c.number ≡ number))) cs)
unfolding find_numbered
find_numbered_exact name number [] = ((λ c e. cc), (λ e. tt))
find_numbered_exact name number (d ∷ cs) =
    let (found, missed) = find_numbered_exact name number cs in
    (
      (λ c e. ground (arith, text_eq_iff d.short_name name, int_eq_iff d.number number, found c)),
      (λ e. ground (arith, text_eq_iff d.short_name name, int_eq_iff d.number number, missed)),
    )

abbrev pub Found : Text → ℤ → List ContainerName → Type 0
Found name number cs =
    (c : ContainerName) × (find_numbered name number cs ≡ some c)
    × (c.short_name ≡ name)
    × (c.number ≡ number)

Found-here :
    (name : Text) (number : ℤ) (c : ContainerName) (cs : List ContainerName)
    → c.short_name ≡ name
    → c.number ≡ number
    → Found name number (c ∷ cs)
unfolding find_numbered
Found-here name number c cs p q =
    (c, ground (arith, text_eq_iff c.short_name name, int_eq_iff c.number number), p, q)

Found-later :
    (name : Text) (number : ℤ) (c : ContainerName) (cs : List ContainerName)
    → Found name number cs
    → Found name number (c ∷ cs)
unfolding find_numbered
Found-later name number d cs (c, e, p, q) =
    elim (Bool-cases (text_eq d.short_name name && int_eq d.number number)) [
      | inl same ↦ (
        d,
        ground (arith, e),
        ground (arith, text_eq_iff d.short_name name),
        ground (arith, int_eq_iff d.number number),
      )
      | inr other ↦ (c, ground arith, p, q)
    ]

Found-append_right :
    (name : Text) (number : ℤ) (cs ds : List ContainerName)
    → Found name number ds
    → Found name number (cs ++ ds)
Found-append_right name number [] ds h = h
Found-append_right name number (c ∷ cs) ds h =
    Found-later name number c (cs ++ ds) (Found-append_right name number cs ds h)

collect_containers-append :
    (typ : Text) (xs ys : List ApiContainer)
    → collect_containers typ (xs ++ ys) ≡ collect_containers typ xs ++ collect_containers typ ys
unfolding collect_containers
collect_containers-append typ [] ys = refl
collect_containers-append typ (x ∷ xs) ys =
    rw (collect_containers-append typ xs ys)
      (sym (append_assoc (collect_names typ x.id x.names) _ _))

-- What the program needs of a type and a short name to find the container again.
pub record IsNameable (typ name : Text) : Type 0 where
  pub typ_plain : Lacks b'_' typ
  pub typ_no_slash : Lacks b'/' typ
  pub name_no_slash : Lacks b'/' name
  pub name_line : IsLine name
  pub name_given : name ≢ []

dockers_name_shape :
    (typ name : Text) (n : ℕ)
    → (container_assemble typ name (pos n)).dockers_name
      ≡ type_prefix typ ++ (name ++ b'_' ∷ itoa (pos n))
unfolding container_assemble
dockers_name_shape typ name n = ap (λ t. codes "/eris_" ++ t) (sym (append_assoc typ (codes "_") _))

tail-Lacks_slash :
    (name : Text) (n : ℕ) → Lacks b'/' name → Lacks b'/' (name ++ b'_' ∷ itoa (pos n))
tail-Lacks_slash name n h = All-append _ name _ h ((omega arith), itoa-Lacks_slash (pos n))

dockers_name_listed :
    (typ name : Text) (n : ℕ)
    → IsNameable typ name
    → (eris_reg_exp_links typ (container_assemble typ name (pos n)).dockers_name ≡ false)
      × (eris_reg_exp typ (container_assemble typ name (pos n)).dockers_name ≡ true)
dockers_name_listed typ name n h =
    let (d, rest, e, bounds) = itoa-cons n in
    rw (dockers_name_shape typ name n) (
      eris_reg_exp_links_lacking typ _ (tail-Lacks_slash name n h.name_no_slash),
      rw e (eris_reg_exp_lem typ name d rest h.name_given h.name_line (ground arith)),
    )

dockers_name_cut :
    (typ name : Text) (number : ℤ)
    → replace_first (container_assemble typ name number).dockers_name (codes "/") []
      ≡ (container_assemble typ name number).full_name
unfolding container_assemble replace_first
dockers_name_cut typ name number = refl

collect_names_lem :
    (typ name id : Text) (n : ℕ)
    → IsNameable typ name
    → n ≤ max_int
    → collect_names typ id ((container_assemble typ name (pos n)).dockers_name ∷ [])
      ≡ record (container_assemble typ name (pos n)) { container_id = id } ∷ []
unfolding collect_names
collect_names_lem typ name id n h hn =
    let (no_link, listed) = dockers_name_listed typ name n h in
    rw (
      no_link,
      listed,
      dockers_name_cut typ name (pos n),
      disassemble-assemble typ name (pos n) h.typ_plain h.typ_no_slash h.name_no_slash hn,
    )

-- A container that the daemon lists under the name of its type, short name and number (with
-- Docker's slash) is found by that short name and number, whatever else is listed: the search
-- returns some container that has both.
pub find-listed :
    (D : DockerClient) (s : D.State) (typ name : Text) (n : ℕ) (running : Bool)
    (before after : List ApiContainer) (con : ApiContainer)
    → IsNameable typ name
    → n ≤ max_int
    → D.list_containers running s ≡ done (before ++ con ∷ after)
    → con.names ≡ (container_assemble typ name (pos n)).dockers_name ∷ []
    → Found name (pos n) (eris_containers_by_type D s typ running)
unfolding eris_containers_by_type
find-listed D s typ name n running before after con h hn listing names =
    rw (listing, collect_containers-append typ before (con ∷ after))
      (Found-append_right name (pos n) (collect_containers typ before) _ (
        rw (names, collect_containers, collect_names_lem typ name con.id n h hn)
          (unfold container_assemble in Found-here name (pos n) _ _ refl refl)))
