-- ===== src/Strings/Laws.antt =====
-- Laws of the string functions: equality, prefixes, splits and joins.
use eris_cli.Base.{
  ℕ, ◌≡◌, refl, ◌≢◌, ◌↔◌, true, some, List, [], ◌∷◌, ◌++◌, arith, All, ◌==◌, Bool-cases, inl, inr,
  if◌then◌else◌,
}
use eris_cli.Strings.{Text, text_eq, strip_prefix, split, join, onto_first, replace_first}

pub text_eq_iff : (s t : Text) → (text_eq s t ≡ true) ↔ (s ≡ t)
unfolding text_eq
text_eq_iff [] [] = (λ _. refl, λ _. refl)
text_eq_iff [] (d ∷ t) = (λ e. cc, λ e. cc)
text_eq_iff (c ∷ s) [] = (λ e. cc, λ e. cc)
text_eq_iff (c ∷ s) (d ∷ t) = ground (arith, text_eq_iff s t)

pub text_eq_refl : (s : Text) → text_eq s s ≡ true
text_eq_refl s = (text_eq_iff s s).1 refl

pub strip_prefix-append : (p s : Text) → strip_prefix p (p ++ s) ≡ some s
unfolding strip_prefix
strip_prefix-append [] s = refl
strip_prefix-append (c ∷ p) s = ground (arith, strip_prefix-append p s)

pub strip_prefix_sound : (p s : Text) {rest : Text} → strip_prefix p s ≡ some rest → s ≡ p ++ rest
unfolding strip_prefix
strip_prefix_sound [] s h = ground arith
strip_prefix_sound (c ∷ p) [] h = cc
strip_prefix_sound (c ∷ p) (d ∷ s) {rest} h = ground (arith, strip_prefix_sound p s {rest = rest})

-- No byte of the text is `b`.
abbrev pub Lacks : ℕ → Text → Type 0
Lacks b = All (λ c. c ≢ b)

pub split_lacking : (s : Text) (sep : ℕ) → Lacks sep s → split s sep ≡ s ∷ []
unfolding split
split_lacking [] sep h = refl
split_lacking (c ∷ s) sep (h, hs) = rw (split_lacking s sep hs) (ground arith)

pub split-append : (s t : Text) (sep : ℕ) → Lacks sep s → split (s ++ sep ∷ t) sep ≡ s ∷ split t sep
unfolding split
split-append [] t sep h = ground arith
split-append (c ∷ s) t sep (h, hs) = rw (split-append s t sep hs) (ground arith)

pub split-ne-nil : (s : Text) (sep : ℕ) → split s sep ≢ []
unfolding split
split-ne-nil [] sep = cc
split-ne-nil (c ∷ s) sep = ground arith

onto_first-append :
    (c : ℕ) (ps qs : List Text) → ps ≢ [] → onto_first c (ps ++ qs) ≡ onto_first c ps ++ qs
onto_first-append c [] qs h = absurd (h refl)
onto_first-append c (p ∷ ps) qs h = refl

pub split-append-sep :
    (s t : Text) (sep : ℕ) → split (s ++ sep ∷ t) sep ≡ split s sep ++ split t sep
unfolding split
split-append-sep [] t sep = ground arith
split-append-sep (c ∷ s) t sep =
    rw (split-append-sep s t sep)
      (ground (arith, onto_first-append c (split s sep) (split t sep) (split-ne-nil s sep)))

pub join-onto_first :
    (c : ℕ) (ps : List Text) (sep : Text) → ps ≢ [] → join (onto_first c ps) sep ≡ c ∷ join ps sep
unfolding join
join-onto_first c [] sep h = absurd (h refl)
join-onto_first c (p ∷ []) sep h = refl
join-onto_first c (p ∷ q ∷ ps) sep h = refl

pub join-cons-nil :
    (ps : List Text) (sep : Text) → ps ≢ [] → join ([] ∷ ps) sep ≡ sep ++ join ps sep
unfolding join
join-cons-nil [] sep h = absurd (h refl)
join-cons-nil (p ∷ ps) sep h = refl

join_onto :
    (c sep : ℕ) (ps : List Text) (s : Text)
    → ps ≢ []
    → join ps (sep ∷ []) ≡ s
    → join (if c == sep then [] ∷ ps else onto_first c ps) (sep ∷ []) ≡ c ∷ s
join_onto c sep ps s h e =
    ground (arith, join-cons-nil ps (sep ∷ []) h, join-onto_first c ps (sep ∷ []) h)

-- Joining the parts of a split gives the text back.
pub join-split : (s : Text) (sep : ℕ) → join (split s sep) (sep ∷ []) ≡ s
unfolding split
join-split [] sep = unfold join in refl
join-split (c ∷ s) sep = join_onto c sep (split s sep) s (split-ne-nil s sep) (join-split s sep)

pub replace_first_lacking : (b : ℕ) (s new : Text) → Lacks b s → replace_first s (b ∷ []) new ≡ s
unfolding replace_first strip_prefix
replace_first_lacking b [] new h = refl
replace_first_lacking b (c ∷ s) new (h, hs) = ground (arith, replace_first_lacking b s new hs)

onto_first-Lacks :
    (c sep : ℕ) (ps : List Text) → c ≢ sep → All (Lacks sep) ps → All (Lacks sep) (onto_first c ps)
onto_first-Lacks c sep [] h _ = ((h, tt), tt)
onto_first-Lacks c sep (p ∷ ps) h (hp, hps) = ((h, hp), hps)

pub split-Lacks : (s : Text) (sep : ℕ) → All (Lacks sep) (split s sep)
unfolding split
split-Lacks [] sep = (tt, tt)
split-Lacks (c ∷ s) sep = elim (Bool-cases (c == sep)) [
  | inl at ↦ rw at (tt, split-Lacks s sep)
  | inr off ↦ rw off (onto_first-Lacks c sep (split s sep) (ground arith) (split-Lacks s sep))
]

-- Splitting a join gives the parts back, if there is a part and none holds the separator.
pub split-join :
    (ps : List Text) (sep : ℕ) → ps ≢ [] → All (Lacks sep) ps → split (join ps (sep ∷ [])) sep ≡ ps
unfolding join
split-join [] sep h _ = absurd (h refl)
split-join (p ∷ []) sep h (hp, _) = split_lacking p sep hp
split-join (p ∷ q ∷ ps) sep h (hp, hps) =
    rw (split-append p (join (q ∷ ps) (sep ∷ [])) sep hp) (rw (split-join (q ∷ ps) sep (cc) hps))
