-- ===== src/Dict.antt =====
-- Go's `map[string]string` as an association list. A `nil` map is `none` where the code tells it
-- from an empty one; the order of the entries stands for an order of iteration.
use eris_cli.Base.{◌≡◌, refl, Option, none, some, List, [], ◌∷◌, arith, if◌then◌else◌}
use eris_cli.Strings.{Text, text_eq}
use eris_cli.Strings.Laws.{text_eq_iff}

abbrev pub Dict {ℓ} : Type ℓ → Type ℓ
Dict V = List (Text × V)

module _ {ℓ} {V : Type ℓ} where
  unfoldable pub lookup : Text → Dict V → Option V
  lookup k [] = none
  lookup k ((j, v) ∷ m) = if text_eq j k then some v else lookup k m

  unfoldable pub insert : Text → V → Dict V → Dict V
  insert k v [] = (k, v) ∷ []
  insert k v ((j, w) ∷ m) = if text_eq j k then (k, v) ∷ m else (j, w) ∷ insert k v m

  -- What `for k, v := range over { base[k] = v }` leaves in `base`.
  unfoldable pub insert_all : Dict V → Dict V → Dict V
  unfolding insert
  insert_all [] base = base
  insert_all ((k, v) ∷ over) base = insert_all over (insert k v base)

  pub lookup-insert :
      (k j : Text) (v : V) (m : Dict V)
      → lookup j (insert k v m) ≡ (if text_eq k j then some v else lookup j m)
  unfolding lookup insert
  lookup-insert k j v [] = refl
  lookup-insert k j v ((i, w) ∷ m) =
      ground (arith, text_eq_iff k j, text_eq_iff i k, text_eq_iff i j, lookup-insert k j v m)

  -- Later entries of `over` win, then those of `base`.
  pub lookup_last : Text → Dict V → Option V → Option V
  lookup_last k [] d = d
  lookup_last k ((j, v) ∷ m) d = lookup_last k m (if text_eq j k then some v else d)

  pub lookup-insert_all :
      (j : Text) (over base : Dict V)
      → lookup j (insert_all over base) ≡ lookup_last j over (lookup j base)
  unfolding insert_all lookup_last
  lookup-insert_all j [] base = refl
  lookup-insert_all j ((k, v) ∷ over) base =
      ground (arith, lookup-insert_all j over (insert k v base), lookup-insert k j v base)
