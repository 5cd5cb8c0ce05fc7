-- ===== src/Numbering/Fresh.antt =====
-- The number that `AutoMagic` gives a new container is free, and that of the latest is taken.
use eris_cli.Base.{
  ℕ, zero, suc, sym, ◌+◌, ◌≤◌, ◌<◌, ◌≡◌, refl, ◌≢◌, ◌⊎◌, inl, inr, true, false, List, [], ◌∷◌, map,
  arith, All, leb, Bool-cases, ap, ◌∙◌,
}
use eris_cli.Base.Int.{ℤ, pos, negsuc, max_int}
use eris_cli.Strings.{Text}
use eris_cli.Docker.{DockerClient}
use eris_cli.Names.{ContainerName}
use eris_cli.Listing.{eris_containers_by_type}
use eris_cli.Listing.Find.{Among}
use eris_cli.Numbering.{highest, choose_number, auto_magic}

-- The number is at most `b`.
abbrev pub AtMost : ℕ → ℤ → Type 0
AtMost b (pos n) = n ≤ b
AtMost b (negsuc n) = Unit

-- The loop from a number that is not negative ends at one, which bounds all numbers.
highest_lem :
    (g : ℕ) (ns : List ℤ) → (h : ℕ) × (highest (pos g) ns ≡ pos h) × (g ≤ h) × All (AtMost h) ns
unfolding highest
highest_lem g [] = (g, refl, omega arith, tt)
highest_lem g (pos n ∷ ns) = elim (Bool-cases (leb g n)) [
  | inl up ↦ let (h, e, le, all) = highest_lem n ns in (h, rw up e, ground arith, (le, all))
  | inr down ↦ let (h, e, le, all) = highest_lem g ns in (h, rw down e, le, (ground arith, all))
]
highest_lem g (negsuc n ∷ ns) = let (h, e, le, all) = highest_lem g ns in (h, e, le, (tt, all))

AtMost-ne : (b : ℕ) (z : ℤ) → AtMost b z → z ≢ pos (b + 1)
AtMost-ne b (pos n) h = λ e. ground arith
AtMost-ne b (negsuc n) h = λ e. cc

AtMost-le : (b n : ℕ) (z : ℤ) → b ≤ n → AtMost b z → AtMost n z
AtMost-le b n (pos k) le h = omega arith
AtMost-le b n (negsuc k) le h = tt

-- The loop ends at its start or at a number of the list.
highest-ne : (m g : ℕ) (ns : List ℤ) → g ≢ m → All (λ n. n ≢ pos m) ns → highest (pos g) ns ≢ pos m
unfolding highest
highest-ne m g [] h _ = ground arith
highest-ne m g (pos n ∷ ns) h (hn, hs) = elim (Bool-cases (leb g n)) [
  | inl up ↦ rw up (highest-ne m n ns (λ e. hn (ap pos e)) hs)
  | inr down ↦ rw down (highest-ne m g ns h hs)
]
highest-ne m g (negsuc n ∷ ns) h (hn, hs) = highest-ne m g ns h hs

abbrev numbers : List ContainerName → List ℤ
numbers = map (λ c. c.number)

numbers-ne :
    (z : ℤ) (cs : List ContainerName) → All (λ c. c.number ≢ z) cs → All (λ n. n ≢ z) (numbers cs)
numbers-ne z [] h = tt
numbers-ne z (c ∷ cs) (h, hs) = (h, numbers-ne z cs hs)

above-ne :
    (b : ℕ) (cs : List ContainerName)
    → All (AtMost b) (numbers cs)
    → All (λ c. c.number ≢ pos (b + 1)) cs
above-ne b [] h = tt
above-ne b (c ∷ cs) (h, hs) = (AtMost-ne b c.number h, above-ne b cs hs)

choose_number-fresh :
    (cs : List ContainerName)
    → All (λ c. c.number ≢ pos max_int) cs
    → (n : ℕ) × (choose_number cs true ≡ pos n) × (0 < n) × All (λ c. c.number ≢ pos n) cs
unfolding choose_number
choose_number-fresh cs h =
    let (b, e, le, all) = highest_lem 0 (numbers cs) in
    let not_max : b ≢ max_int =
      λ p. highest-ne max_int 0 (numbers cs) (omega arith) (numbers-ne _ cs h) (e ∙ ap pos p) in
    (b + 1, rw e (ground arith), omega arith, above-ne b cs all)

abbrev AmongNumbers : ℤ → List ℤ → Type 0
AmongNumbers z [] = ⊥
AmongNumbers z (n ∷ ns) = (z ≡ n) ⊎ AmongNumbers z ns

or_later {ℓ κ μ} : {A : Type ℓ} {B : Type κ} {C : Type μ} → A ⊎ C → A ⊎ (B ⊎ C)
or_later (inl a) = inl a
or_later (inr c) = inr (inr c)

highest_attained :
    (g : ℕ) (ns : List ℤ) (h : ℤ) → highest (pos g) ns ≡ h → (h ≡ pos g) ⊎ AmongNumbers h ns
unfolding highest
highest_attained g [] h e = inl (sym e)
highest_attained g (pos n ∷ ns) h e = elim (Bool-cases (leb g n)) [
  | inl up ↦ inr (highest_attained n ns h (rw up at e))
  | inr down ↦ or_later (highest_attained g ns h (rw down at e))
]
highest_attained g (negsuc n ∷ ns) h e = or_later (highest_attained g ns h e)

holder_of_number :
    (z : ℤ) (cs : List ContainerName)
    → AmongNumbers z (numbers cs)
    → (c : ContainerName) × (c.number ≡ z) × Among c cs
holder_of_number z [] m = absurd m
holder_of_number z (c ∷ cs) (inl e) = (c, sym e, inl refl)
holder_of_number z (c ∷ cs) (inr m) =
    let (d, e, among) = holder_of_number z cs m in (d, e, inr among)

-- The number is positive, none is greater, and it is 1 or the number of a container.
abbrev pub IsLatest : ℕ → List ContainerName → Type 0
IsLatest n cs =
    (0 < n)
    × All (λ c. AtMost n c.number) cs
    × ((n ≡ 1) ⊎ ((c : ContainerName) × (c.number ≡ pos n) × Among c cs))

AtMost-numbers :
    (b n : ℕ) (cs : List ContainerName)
    → b ≤ n
    → All (AtMost b) (numbers cs)
    → All (λ c. AtMost n c.number) cs
AtMost-numbers b n [] le h = tt
AtMost-numbers b n (c ∷ cs) le (h, hs) = (AtMost-le b n c.number le h, AtMost-numbers b n cs le hs)

IsLatest-of :
    (cs : List ContainerName) (h : ℕ)
    → highest (pos 0) (numbers cs) ≡ pos h
    → All (AtMost h) (numbers cs)
    → (pos h ≡ pos 0) ⊎ AmongNumbers (pos h) (numbers cs)
    → (n : ℕ) × (choose_number cs false ≡ pos n) × IsLatest n cs
unfolding choose_number
IsLatest-of cs zero e all _ =
    (1, rw e, (omega arith, AtMost-numbers 0 1 cs (omega arith) all, inl refl))
IsLatest-of cs (suc h) e all (inl z) = absurd (ground arith)
IsLatest-of cs (suc h) e all (inr m) = (
  suc h,
  rw e (ground arith),
  (
    omega arith,
    AtMost-numbers (suc h) (suc h) cs (omega arith) all,
    inr (holder_of_number (pos (suc h)) cs m),
  ),
)

choose_number-IsLatest :
    (cs : List ContainerName) → (n : ℕ) × (choose_number cs false ≡ pos n) × IsLatest n cs
choose_number-IsLatest cs =
    let (h, e, le, all) = highest_lem 0 (numbers cs) in
    IsLatest-of cs h e all (highest_attained 0 (numbers cs) (pos h) e)

-- A new container's number is positive and differs from that of every listed container of its type,
-- as long as no listed number is the greatest `int`.
pub auto_magic-fresh :
    (D : DockerClient) (s : D.State) (typ : Text)
    → All (λ c. c.number ≢ pos max_int) (eris_containers_by_type D s typ true)
    → (n : ℕ) × (auto_magic D s typ true ≡ pos n)
      × (0 < n)
      × All (λ c. c.number ≢ pos n) (eris_containers_by_type D s typ true)
unfolding auto_magic
auto_magic-fresh D s typ h = choose_number-fresh (eris_containers_by_type D s typ true) h

-- The number of the latest container is that of a listed container of its type, or 1 if none has a
-- positive number; no listed number is greater.
pub auto_magic-IsLatest :
    (D : DockerClient) (s : D.State) (typ : Text)
    → (n : ℕ) × (auto_magic D s typ false ≡ pos n)
      × IsLatest n (eris_containers_by_type D s typ true)
unfolding auto_magic
auto_magic-IsLatest D s typ = choose_number-IsLatest (eris_containers_by_type D s typ true)
