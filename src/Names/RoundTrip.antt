-- ===== src/Names/RoundTrip.antt =====
-- Assembling a container's name and taking it apart, and the names of paired data containers.
use eris_cli.Base.{◌≡◌, refl, ◌≢◌, ◌⊎◌, inl, inr, some, List, [], ◌∷◌, ◌++◌, arith, All-append}
use eris_cli.Base.Int.{ℤ, InRange}
use eris_cli.Strings.{Text, codes, split, join, replace_first, last_or, init}
use eris_cli.Strings.Laws.{
  Lacks, split_lacking, split-append, split-append-sep, split-ne-nil, join-split,
  replace_first_lacking, text_eq_iff,
}
use eris_cli.Strings.Decimal.{itoa, atoi, atoi-itoa, itoa-IsNumeral, numeral-Lacks}
use eris_cli.Names.{
  container_assemble, container_disassemble, disassemble_parts, service_containers_name,
  chain_containers_name, data_containers_name, service_to_data_container, chain_to_data_container,
  data_container_to_service, data_container_to_chain,
}

itoa-Lacks_underscore : (z : ℤ) → Lacks b'_' (itoa z)
itoa-Lacks_underscore z = numeral-Lacks b'_' (itoa z) (ground arith) (itoa-IsNumeral z)

pub itoa-Lacks_slash : (z : ℤ) → Lacks b'/' (itoa z)
itoa-Lacks_slash z = numeral-Lacks b'/' (itoa z) (ground arith) (itoa-IsNumeral z)

-- What stands behind `eris_` in a name.
abbrev stem : Text → Text → ℤ → Text
stem typ name number = typ ++ (codes "_" ++ (name ++ (codes "_" ++ itoa number)))

split-stem :
    (typ name : Text) (number : ℤ)
    → Lacks b'_' typ
    → split (stem typ name number) b'_' ≡ typ ∷ (split name b'_' ++ itoa number ∷ [])
split-stem typ name number h = rw (
  split-append typ (name ++ (codes "_" ++ itoa number)) b'_' h,
  split-append-sep name (itoa number) b'_',
  split_lacking (itoa number) b'_' (itoa-Lacks_underscore number),
)

init-concat {ℓ} : {A : Type ℓ} (xs : List A) (x : A) → init (xs ++ x ∷ []) ≡ xs
init-concat [] x = refl
init-concat (y ∷ []) x = refl
init-concat (y ∷ z ∷ xs) x = rw (init-concat (z ∷ xs) x)

last_or-concat {ℓ} : {A : Type ℓ} (d : A) (xs : List A) (x : A) → last_or d (xs ++ x ∷ []) ≡ x
last_or-concat d [] x = refl
last_or-concat d (y ∷ []) x = refl
last_or-concat d (y ∷ z ∷ xs) x = last_or-concat d (z ∷ xs) x

-- The parts of a name that was assembled, behind `eris` or `/eris`.
disassemble_parts_lem :
    (s p0 typ num : Text) (parts : List Text) (number : ℤ)
    → (p0 ≡ codes "eris") ⊎ (p0 ≡ codes "/eris")
    → parts ≢ []
    → atoi num ≡ some number
    → disassemble_parts s (p0 ∷ typ ∷ (parts ++ num ∷ [])) ≡ record {
      full_name = replace_first s (codes "/") [];
      dockers_name = codes "/" ++ replace_first s (codes "/") [];
      short_name = join parts (codes "_");
      number = number;
      typ = typ;
      container_id = [];
    }
unfolding disassemble_parts
disassemble_parts_lem s p0 typ num [] number hp h e = absurd (h refl)
disassemble_parts_lem s p0 typ num (p ∷ []) number hp h e =
    unfold join in ground (arith, text_eq_iff p0 (codes "eris"), text_eq_iff p0 (codes "/eris"))
disassemble_parts_lem s p0 typ num (p ∷ q ∷ ps) number hp h e = ground (
  arith,
  text_eq_iff p0 (codes "eris"),
  text_eq_iff p0 (codes "/eris"),
  last_or-concat [] (q ∷ ps) num,
  init-concat (p ∷ q ∷ ps) num,
)

-- A name that was assembled, with or without Docker's leading slash, taken apart.
disassemble_stem :
    (p0 typ name : Text) (number : ℤ)
    → (p0 ≡ codes "eris") ⊎ (p0 ≡ codes "/eris")
    → Lacks b'_' p0
    → Lacks b'_' typ
    → InRange number
    → (let s = p0 ++ b'_' ∷ stem typ name number in
        container_disassemble s ≡ record {
          full_name = replace_first s (codes "/") [];
          dockers_name = codes "/" ++ replace_first s (codes "/") [];
          short_name = name;
          number = number;
          typ = typ;
          container_id = [];
        })
unfolding container_disassemble
disassemble_stem p0 typ name number hp hu ht hn =
    rw (split-append p0 (stem typ name number) b'_' hu, split-stem typ name number ht)
      (rw (
        disassemble_parts_lem _ p0 typ (itoa number) (split name b'_') number hp
            (split-ne-nil name b'_') (atoi-itoa number hn),
        join-split name b'_',
      ))

-- A container's name with Docker's leading slash is taken apart into what it was assembled from,
-- for every short name, every type with no underscore and every 64-bit number.
pub disassemble-slash-assemble :
    (typ name : Text) (number : ℤ)
    → Lacks b'_' typ
    → InRange number
    → container_disassemble (container_assemble typ name number).dockers_name
      ≡ container_assemble typ name number
unfolding container_assemble replace_first
disassemble-slash-assemble typ name number ht hn =
    disassemble_stem (codes "/eris") typ name number (inr refl) (omega arith) ht hn

full-Lacks_slash :
    (typ name : Text) (number : ℤ)
    → Lacks b'/' typ
    → Lacks b'/' name
    → Lacks b'/' (codes "eris_" ++ stem typ name number)
full-Lacks_slash typ name number ht hn =
    All-append _ (codes "eris_") (stem typ name number) (omega arith) (
      All-append _ typ _ ht
        (omega arith, All-append _ name _ hn (omega arith, itoa-Lacks_slash number)))

-- So is the name without the slash, if no part of it holds a slash.
pub disassemble-assemble :
    (typ name : Text) (number : ℤ)
    → Lacks b'_' typ
    → Lacks b'/' typ
    → Lacks b'/' name
    → InRange number
    → container_disassemble (container_assemble typ name number).full_name
      ≡ container_assemble typ name number
unfolding container_assemble
disassemble-assemble typ name number ht hs hns hn =
    rw (disassemble_stem (codes "eris") typ name number (inl refl) (omega arith) ht hn)
      (rw (replace_first_lacking b'/' _ [] (full-Lacks_slash typ name number hs hns)))

-- The four conversions between a container's name and that of its data container map the name of
-- each kind to the name of the other, for every short name and number.
pub data_container_pairs :
    (name : Text) (number : ℤ)
    → (service_to_data_container (service_containers_name name number)
        ≡ data_containers_name name number)
      × (data_container_to_service (data_containers_name name number)
          ≡ service_containers_name name number)
      × (chain_to_data_container (chain_containers_name name number)
          ≡ data_containers_name name number)
      × (data_container_to_chain (data_containers_name name number)
          ≡ chain_containers_name name number)
unfolding service_containers_name chain_containers_name data_containers_name
    service_to_data_container chain_to_data_container data_container_to_service
    data_container_to_chain
data_container_pairs name number = (refl, refl, refl, refl)
