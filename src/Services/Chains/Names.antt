-- ===== src/Services/Chains/Names.antt =====
-- The chains of a group, one of each name.
use eris_cli.Base.{
  ◌≡◌, refl, sym, ◌⊎◌, inl, inr, Bool, true, false, Bool-cases, List, [], ◌∷◌, if◌then◌else◌,
}
use eris_cli.Strings.{Text, text_eq}
use eris_cli.Strings.Laws.{text_eq_iff}
use eris_cli.Definitions.{ServiceDefinition}
use eris_cli.Services.Chains.{add_chain}

-- A chain of this name is among the chains.
abbrev pub HasName : Text → List ServiceDefinition → Type 0
HasName name [] = ⊥
HasName name (c ∷ cs) = (c.name ≡ name) ⊎ HasName name cs

-- No two have one name.
abbrev pub IsDistinct : List ServiceDefinition → Type 0
IsDistinct [] = Unit
IsDistinct (c ∷ cs) = (¬ HasName c.name cs) × IsDistinct cs

pub add_chain-HasName :
    (chain : ServiceDefinition) (cs : List ServiceDefinition)
    → HasName chain.name (add_chain chain cs)
unfolding add_chain
add_chain-HasName chain [] = inl refl
add_chain-HasName chain (c ∷ cs) = elim (Bool-cases (text_eq c.name chain.name)) [
  | inl same ↦ rw same (inl ((text_eq_iff c.name chain.name).0 same))
  | inr other ↦ rw other (inr (add_chain-HasName chain cs))
]

pub add_chain-keeps :
    (name : Text) (chain : ServiceDefinition) (cs : List ServiceDefinition)
    → HasName name cs
    → HasName name (add_chain chain cs)
unfolding add_chain
add_chain-keeps name chain [] h = absurd h
add_chain-keeps name chain (c ∷ cs) h = elim (Bool-cases (text_eq c.name chain.name)) [
  | inl same ↦ rw same h
  | inr other ↦ rw other (elim h [ inl e ↦ inl e | inr k ↦ inr (add_chain-keeps name chain cs k) ])
]

add_chain-new :
    (name : Text) (chain : ServiceDefinition) (cs : List ServiceDefinition)
    → HasName name (add_chain chain cs)
    → (chain.name ≡ name) ⊎ HasName name cs
unfolding add_chain
add_chain-new name chain [] (inl e) = inl e
add_chain-new name chain [] (inr h) = absurd h
add_chain-new name chain (c ∷ cs) h =
    by_test (text_eq c.name chain.name) h (add_chain-new name chain cs)
  where
    by_test :
        (b : Bool)
        → HasName name (if b then c ∷ cs else c ∷ add_chain chain cs)
        → (HasName name (add_chain chain cs) → (chain.name ≡ name) ⊎ HasName name cs)
        → (chain.name ≡ name) ⊎ HasName name (c ∷ cs)
    by_test true k later = inr k
    by_test false (inl e) later = inr (inl e)
    by_test false (inr k) later = elim (later k) [ inl e ↦ inl e | inr l ↦ inr (inr l) ]

pub add_chain-IsDistinct :
    (chain : ServiceDefinition) (cs : List ServiceDefinition)
    → IsDistinct cs
    → IsDistinct (add_chain chain cs)
unfolding add_chain
add_chain-IsDistinct chain [] h = ((λ k. k), tt)
add_chain-IsDistinct chain (c ∷ cs) (fresh, h) = elim (Bool-cases (text_eq c.name chain.name)) [
  | inl same ↦ rw same (fresh, h)
  | inr other ↦ rw other (
    (λ k. elim (add_chain-new c.name chain cs k) [
      | inl e ↦ absurd (cc (other, (text_eq_iff c.name chain.name).1 (sym e)))
      | inr l ↦ fresh l
    ]),
    add_chain-IsDistinct chain cs h,
  )
]
