-- ===== src/Services/Group/Ordered.antt =====
-- The order of a group of services.
use eris_cli.Base.{
  ℕ, zero, suc, ◌≡◌, refl, sym, ◌∙◌, ap, subst, none, some, List, [], ◌∷◌, ◌++◌, All, append_assoc,
  append-nil,
}
use eris_cli.Base.Int.{ℤ}
use eris_cli.Strings.{Text}
use eris_cli.Definitions.{ServiceDefinition}
use eris_cli.Docker.{DockerClient}
use eris_cli.Loaders.Outcome.{Outcome, loaded, refused, panicked, Viper, Sources}
use eris_cli.Services.Group.{
  Built, needs, build_needed, with_last, load_named, build_services_group, build_alone,
}

-- The definition stands in the list.
abbrev pub Stands : ServiceDefinition → List ServiceDefinition → Type 0
Stands d group = (before after : List ServiceDefinition) × (group ≡ before ++ d ∷ after)

module _ (load : Text → Outcome ServiceDefinition) where
  -- What the name loads stands in the list.
  abbrev pub Placed : List ServiceDefinition → Text → Type 0
  Placed group name = (d : ServiceDefinition) × (load name ≡ loaded d) × Stands d group

  -- Whatever a definition needs stands before it, behind the definitions `before`.
  abbrev pub IsOrdered : List ServiceDefinition → List ServiceDefinition → Type 0
  IsOrdered before [] = Unit
  IsOrdered before (d ∷ ds) = All (Placed before) (needs d) × IsOrdered (before ++ d ∷ []) ds

  -- An ordered group that ends with the named service.
  pub record GroupOf (name : Text) (group : List ServiceDefinition) : Type 0 where
    pub top : ServiceDefinition
    pub top_loaded : load name ≡ loaded top
    pub others : List ServiceDefinition
    pub top_last : group ≡ others ++ top ∷ []
    pub ordered : IsOrdered [] group

  Placed-append_left :
      (more group : List ServiceDefinition) (names : List Text)
      → All (Placed group) names
      → All (Placed (more ++ group)) names
  Placed-append_left more group [] h = tt
  Placed-append_left more group (name ∷ names) ((d, e, (before, after, split)), h) = (
    (
      d,
      e,
      (
        more ++ before,
        after,
        ap (λ g. more ++ g) split ∙ sym (append_assoc more before (d ∷ after)),
      ),
    ),
    Placed-append_left more group names h,
  )

  Placed-append_right :
      (group more : List ServiceDefinition) (name : Text)
      → Placed group name
      → Placed (group ++ more) name
  Placed-append_right group more name (d, e, (before, after, split)) = (
    d,
    e,
    (before, after ++ more, ap (λ g. g ++ more) split ∙ append_assoc before (d ∷ after) more),
  )

  IsOrdered-behind :
      (more before group : List ServiceDefinition)
      → IsOrdered before group
      → IsOrdered (more ++ before) group
  IsOrdered-behind more before [] h = tt
  IsOrdered-behind more before (d ∷ ds) (placed, h) = (
    Placed-append_left more before (needs d) placed,
    subst (λ b. IsOrdered b ds) (sym (append_assoc more before (d ∷ [])))
        (IsOrdered-behind more (before ++ d ∷ []) ds h),
  )

  IsOrdered-append :
      (before xs ys : List ServiceDefinition)
      → IsOrdered before xs
      → IsOrdered (before ++ xs) ys
      → IsOrdered before (xs ++ ys)
  IsOrdered-append before [] ys h k = subst (λ b. IsOrdered b ys) (append-nil before) k
  IsOrdered-append before (x ∷ xs) ys (placed, h) k = (
    placed,
    IsOrdered-append (before ++ x ∷ []) xs ys h
        (subst (λ b. IsOrdered b ys) (sym (append_assoc before (x ∷ []) xs)) k),
  )

  IsOrdered-join :
      (xs ys : List ServiceDefinition) → IsOrdered [] xs → IsOrdered [] ys → IsOrdered [] (xs ++ ys)
  IsOrdered-join xs ys h k =
      IsOrdered-append [] xs ys h
        (subst (λ b. IsOrdered b ys) (append-nil xs) (IsOrdered-behind xs [] ys k))

  build_needed-first :
      (build : Text → Built) (o : Built) (names : List Text) (services out : List ServiceDefinition)
      → (elim o as (λ _. Built) [
        | none ↦ none
        | some (refused e) ↦ some (refused e)
        | some panicked ↦ some panicked
        | some (loaded s) ↦ build_needed build names (services ++ s)
      ])
        ≡ some (loaded out)
      → (s : List ServiceDefinition) × (o ≡ some (loaded s))
        × (build_needed build names (services ++ s) ≡ some (loaded out))
  build_needed-first build none names services out h = absurd (cc h)
  build_needed-first build (some (refused e)) names services out h = absurd (cc h)
  build_needed-first build (some panicked) names services out h = absurd (cc h)
  build_needed-first build (some (loaded s)) names services out h = (s, refl, h)

  Placed-extended :
      (build : Text → Built) (names : List Text) (services out : List ServiceDefinition)
      (name : Text)
      → build_needed build names services ≡ some (loaded out)
      → Placed services name
      → Placed out name
  unfolding build_needed
  Placed-extended build [] services out name h placed = subst (λ g. Placed g name) (cc h) placed
  Placed-extended build (n ∷ names) services out name h placed =
      let (s, _, rest) = build_needed-first build (build n) names services out h in
      Placed-extended build names (services ++ s) out name rest
        (Placed-append_right services s name placed)

  -- The loop keeps the order and places every name.
  build_needed-IsOrdered :
      (build : Text → Built)
      → ((name : Text) (g : List ServiceDefinition) → build name ≡ some (loaded g) → GroupOf name g)
      → (names : List Text) (services out : List ServiceDefinition)
      → build_needed build names services ≡ some (loaded out)
      → IsOrdered [] services
      → IsOrdered [] out × All (Placed out) names
  unfolding build_needed
  build_needed-IsOrdered build spec [] services out h ordered =
      (subst (λ g. IsOrdered [] g) (cc h) ordered, tt)
  build_needed-IsOrdered build spec (name ∷ names) services out h ordered =
      let (s, built, rest) = build_needed-first build (build name) names services out h in
      let group = spec name s built in
      let (out_ordered, placed) =
        build_needed-IsOrdered build spec names (services ++ s) out rest
          (IsOrdered-join services s ordered group.ordered) in
      let here : Placed (services ++ s) name = (
        group.top,
        group.top_loaded,
        (
          services ++ group.others,
          [],
          ap (λ g. services ++ g) group.top_last
              ∙ sym (append_assoc services group.others (group.top ∷ [])),
        ),
      ) in
      (out_ordered, (Placed-extended build names (services ++ s) out name rest here, placed))

  with_last-loaded :
      (d : ServiceDefinition) (o : Built) (out : List ServiceDefinition)
      → with_last d o ≡ some (loaded out)
      → (g : List ServiceDefinition) × (o ≡ some (loaded g)) × (out ≡ g ++ d ∷ [])
  with_last-loaded d none out h = absurd (cc h)
  with_last-loaded d (some (refused e)) out h = absurd (cc h)
  with_last-loaded d (some panicked) out h = absurd (cc h)
  with_last-loaded d (some (loaded g)) out h = (g, refl, cc h)

module _ (D : DockerClient) (V : Viper) (sources : Sources) (s : D.State) (number : ℤ) where
  load : Text → Outcome ServiceDefinition
  load = load_named D V sources s number

  unbuilt : (fuel : ℕ) (o : Outcome ServiceDefinition) → Built
  unbuilt fuel o = elim o [
    | refused e ↦ some (refused e)
    | panicked ↦ some panicked
    | loaded srv ↦
        with_last srv (build_needed (build_alone D V sources s number fuel) (needs srv) [])
  ]

  unbuilt-loaded :
      (fuel : ℕ) (o : Outcome ServiceDefinition) (group : List ServiceDefinition)
      → unbuilt fuel o ≡ some (loaded group)
      → (d : ServiceDefinition) × (o ≡ loaded d)
        × (with_last d (build_needed (build_alone D V sources s number fuel) (needs d) [])
            ≡ some (loaded group))
  unfolding unbuilt
  unbuilt-loaded fuel (refused e) group h = absurd (cc h)
  unbuilt-loaded fuel panicked group h = absurd (cc h)
  unbuilt-loaded fuel (loaded d) group h = (d, refl, h)

  -- A group that is built ends with the definition of the named service, and whatever a definition
  -- of the group needs stands before it, as its name loads.
  pub build_services_group-GroupOf :
      (fuel : ℕ) (name : Text) (group : List ServiceDefinition)
      → build_services_group D V sources s number fuel name [] ≡ some (loaded group)
      → GroupOf (load_named D V sources s number) name group
  unfolding build_services_group unbuilt load
  build_services_group-GroupOf zero name group h = absurd (cc h)
  build_services_group-GroupOf (suc fuel) name group h =
      let (d, found, built) = unbuilt-loaded fuel (load name) group h in
      let (others, needed, last) = with_last-loaded load d _ group built in
      let (ordered, placed) =
        build_needed-IsOrdered load (build_alone D V sources s number fuel)
          (build_services_group-GroupOf fuel) (needs d) [] others needed tt in
      record {
        top = d;
        top_loaded = found;
        others = others;
        top_last = last;
        ordered = rw last (IsOrdered-append load [] others (d ∷ []) ordered (placed, tt));
      }
