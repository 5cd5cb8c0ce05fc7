-- ===== src/Head/Stack.antt =====
-- The HEAD file as a bounded stack of names.
use eris_cli.Base.{
  ℕ, ◌-◌, ◌≤◌, ◌<◌, ◌≡◌, refl, ◌≢◌, ◌⊎◌, inl, inr, Bool, true, false, Option, none, some, List, [],
  ◌∷◌, ◌++◌, length, take, leb, arith, All, zero, suc, sym, ap, ◌∙◌, if◌then◌else◌, Bool-cases,
  Option-cases,
}
use eris_cli.Strings.{Text, codes, split, join, text_eq}
use eris_cli.Strings.Laws.{Lacks, split-append, split-join, split-Lacks, split-ne-nil, text_eq_iff}
use eris_cli.Head.{
  HeadFile, success, get_head, change_head, write_head, checkout_chain, current_chain,
}

-- The names on the stack, the latest first.
unfoldable pub stack : HeadFile → List Text
stack f = elim f.content [ none ↦ [] | some s ↦ split s b'\n' ]

take-ne-nil {ℓ} : {A : Type ℓ} (n : ℕ) (xs : List A) → 0 < n → xs ≢ [] → take n xs ≢ []
take-ne-nil zero xs h k = elim h [ ]
take-ne-nil (suc n) [] h k = absurd (k refl)
take-ne-nil (suc n) (x ∷ xs) h k = cc

take-All {ℓ κ} : {A : Type ℓ} (P : A → Type κ) (n : ℕ) (xs : List A) → All P xs → All P (take n xs)
take-All P zero xs h = tt
take-All P (suc n) [] h = tt
take-All P (suc n) (x ∷ xs) (h, hs) = (h, take-All P n xs hs)

take_all {ℓ} : {A : Type ℓ} (n : ℕ) (xs : List A) → length xs ≤ n → take n xs ≡ xs
take_all zero [] h = refl
take_all zero (x ∷ xs) h = elim h [ ]
take_all (suc n) [] h = refl
take_all (suc n) (x ∷ xs) h = rw (take_all n xs (omega arith))

-- The lines that are written back.
clipped : ℕ → Text → Text
clipped max b =
    let bspl = split b b'\n' in
    if leb max (length bspl) then join (take (max - 1) bspl) (codes "\n") else b

split-clipped :
    (max : ℕ) (b : Text) → 1 < max → split (clipped max b) b'\n' ≡ take (max - 1) (split b b'\n')
unfolding clipped
split-clipped max b h = elim (Bool-cases (leb max (length (split b b'\n')))) [
  | inl long ↦ rw long (
      split-join (take (max - 1) (split b b'\n')) b'\n'
        (take-ne-nil (max - 1) _ (omega arith) (split-ne-nil b b'\n'))
        (take-All (Lacks b'\n') (max - 1) _ (split-Lacks b b'\n')))
  | inr short ↦ rw short (sym (take_all (max - 1) (split b b'\n') (ground arith)))
]

length-take_le {ℓ} : {A : Type ℓ} (n : ℕ) (xs : List A) → length (take n xs) ≤ n
length-take_le zero xs = omega arith
length-take_le (suc n) [] = omega arith
length-take_le (suc n) (x ∷ xs) = omega (arith, length-take_le n xs)

-- What the head of a file is whose first line is `name`.
abbrev head_named : Text → Option Text
head_named name = if text_eq name [] then none else some name

get_head_line :
    (name b : Text) (w : Bool)
    → Lacks b'\n' name
    → get_head (record { content = some (name ++ b'\n' ∷ b); writable = w }) ≡ head_named name
unfolding get_head
get_head_line name b w h = rw (split-append name b b'\n' h)

module _ (max : ℕ) (is_known : Text → Bool) where
  write_head_lem :
      (name : Text) (f : HeadFile) (b : Text)
      → f.writable ≡ true
      → write_head max is_known name f b
        ≡ (success, record f { content = some (name ++ b'\n' ∷ clipped max b) })
  unfolding write_head clipped
  write_head_lem name f b h = ground arith

  change_head_known :
      (name : Text) (f : HeadFile) (b : Text)
      → (is_known name ≡ true) ⊎ (name ≡ [])
      → f.content ≡ some b
      → change_head max is_known name f ≡ write_head max is_known name f b
  unfolding change_head
  change_head_known name f b h e = ground (arith, text_eq_iff name [])

  -- Checking out a known chain, or none (the empty name), puts its name on the stack above the
  -- latest `max - 1` names that were there, and that name is the head, if the file can be read and
  -- written and the name is one line. The stack then has at most `max` names.
  pub change_head_pushes :
      (name : Text) (f : HeadFile) (b : Text)
      → 1 < max
      → (is_known name ≡ true) ⊎ (name ≡ [])
      → Lacks b'\n' name
      → f.content ≡ some b
      → f.writable ≡ true
      → (let (outcome, g) = change_head max is_known name f in
          (outcome ≡ success)
          × (stack g ≡ name ∷ take (max - 1) (stack f))
          × (get_head g ≡ head_named name)
          × (length (stack g) ≤ max))
  unfolding stack
  change_head_pushes name f b big known line readable writable =
      rw (change_head_known name f b known readable, write_head_lem name f b writable, readable)
        (let pushed : split (name ++ b'\n' ∷ clipped max b) b'\n'
              ≡ name ∷ take (max - 1) (split b b'\n') =
            split-append name (clipped max b) b'\n' line
            ∙ ap (λ ls. name ∷ ls) (split-clipped max b big) in
          (
            refl,
            pushed,
            get_head_line name (clipped max b) f.writable line,
            rw pushed (omega (arith, length-take_le (max - 1) (split b b'\n'))),
          ))

  -- A name that is not known and not empty leaves the file as it is, and no error is reported.
  change_head_unknown :
      (name : Text) (f : HeadFile)
      → is_known name ≡ false
      → name ≢ []
      → change_head max is_known name f ≡ (success, f)
  unfolding change_head
  change_head_unknown name f h k = ground (arith, text_eq_iff name [])

  -- Either nothing is written, or the premises of `change_head_pushes` hold.
  change_head_cases :
      (name : Text) (f : HeadFile)
      → ((change_head max is_known name f).1 ≡ f)
        ⊎ (((is_known name ≡ true) ⊎ (name ≡ []))
            × ((b : Text) × (f.content ≡ some b))
            × (f.writable ≡ true))
  unfolding change_head write_head
  change_head_cases name f = elim (Bool-cases f.writable) [
    | inr off ↦ inl (ground arith)
    | inl on ↦ elim (Option-cases f.content) [
      | inl unread ↦ inl (ground arith)
      | inr content ↦ elim (Bool-cases (is_known name)) [
        | inl known ↦ inr (inl known, content, on)
        | inr unknown ↦ elim (Bool-cases (text_eq name [])) [
          | inl empty ↦ inr (inr ((text_eq_iff name []).0 empty), content, on)
          | inr given ↦ inl (ground arith)
        ]
      ]
    ]
  ]

  -- A file with at most `max` names has at most `max` names after any checkout of one line,
  -- whether the name is known or not and whether or not the file can be read or written.
  pub change_head_bounded :
      (name : Text) (f : HeadFile)
      → 1 < max
      → Lacks b'\n' name
      → length (stack f) ≤ max
      → length (stack (change_head max is_known name f).1) ≤ max
  change_head_bounded name f big line h = elim (change_head_cases name f) [
    | inl same ↦ rw same h
    | inr (known, content, writable) ↦
        (change_head_pushes name f content.0 big known line content.1 writable).3
  ]

  head_after_checkout :
      (name : Text) (f : HeadFile) (b : Text)
      → 1 < max
      → name ≢ []
      → is_known name ≡ true
      → Lacks b'\n' name
      → f.content ≡ some b
      → f.writable ≡ true
      → get_head (checkout_chain max is_known name f).1.1 ≡ some name
  unfolding checkout_chain
  head_after_checkout [] f b big given known line readable writable = absurd (given refl)
  head_after_checkout (c ∷ name) f b big given known line readable writable =
      let (done, pushed, head, bounded) =
        change_head_pushes (c ∷ name) f b big (inl known) line readable writable in
      elim (Option-cases (get_head f)) [
        | inl unset ↦ rw (unset, checkout_chain) (rw head (unfold text_eq in refl))
        | inr (cur, e) ↦ elim (Bool-cases (text_eq (c ∷ name) cur)) [
          | inl same ↦
              rw (e, checkout_chain)
                (rw same (rw e (ap some (sym ((text_eq_iff (c ∷ name) cur).0 same)))))
          | inr other ↦ rw (e, checkout_chain) (rw other (rw head (unfold text_eq in refl)))
        ]
      ]

  -- After `chains checkout` of a known chain, `chains current` prints it, whichever chain was
  -- checked out before, if the HEAD file can be read and written and the name is one line.
  pub current-checkout :
      (name : Text) (f : HeadFile) (b : Text)
      → 1 < max
      → name ≢ []
      → is_known name ≡ true
      → Lacks b'\n' name
      → f.content ≡ some b
      → f.writable ≡ true
      → current_chain (checkout_chain max is_known name f).1.1 ≡ name
  unfolding current_chain
  current-checkout [] f b big given known line readable writable = absurd (given refl)
  current-checkout (c ∷ name) f b big given known line readable writable =
      rw (head_after_checkout (c ∷ name) f b big given known line readable writable, current_chain)
