-- ===== src/Actions/Words.antt =====
-- Which words of a command name the action's file, and which are dropped.
use eris_cli.Base.{
  ℕ, zero, suc, ◌+◌, ◌≡◌, refl, ◌≢◌, ◌≤◌, sym, ap, ◌∙◌, Bool, true, false, some, List, [], ◌∷◌,
  ◌++◌, arith, append-nil, append_assoc, length, length-append,
}
use eris_cli.Strings.{Text, codes, join}
use eris_cli.Dict.{Dict, insert}
use eris_cli.Actions.{split_last, variable, read_rounds, read_action_definition}

-- The words from the last to the first.
unfoldable pub backwards : List Text → List Text
backwards [] = []
backwards (w ∷ ws) = backwards ws ++ w ∷ []

-- The words under the variables from `$n` on.
unfoldable pub number_from : ℕ → List Text → Dict Text → Dict Text
number_from n [] dropped = dropped
number_from n (w ∷ ws) dropped = number_from (suc n) ws (insert (variable n) w dropped)

split_last-append : (w l : Text) (ws : List Text) → split_last w (ws ++ l ∷ []) ≡ (w ∷ ws, l)
unfolding split_last
split_last-append w l [] = refl
split_last-append w l (v ∷ vs) = rw (split_last-append v l vs) refl

module _ (is_readable : Text → Bool) where
  -- The file of these words can be read.
  abbrev pub names_file : List Text → Bool
  names_file words = is_readable (join words (codes "_"))

  read_rounds_drop :
      (fuel : ℕ) (xs : List Text) (l : Text) (dropped : Dict Text) (n : ℕ)
      → names_file (xs ++ l ∷ []) ≡ false
      → read_rounds is_readable (suc fuel) (xs ++ l ∷ []) dropped n
        ≡ read_rounds is_readable fuel xs (insert (variable n) l dropped) (suc n)
  unfolding read_rounds split_last
  read_rounds_drop fuel [] l dropped n h = rw h refl
  read_rounds_drop fuel (x ∷ xs) l dropped n h = rw (split_last-append x l xs, h) refl

  read_rounds_here :
      (fuel : ℕ) (found : List Text) (dropped : Dict Text) (n : ℕ)
      → found ≢ []
      → length found ≤ fuel
      → names_file found ≡ true
      → read_rounds is_readable fuel found dropped n ≡ (some found, dropped)
  unfolding read_rounds
  read_rounds_here fuel [] dropped n given enough h = absurd (given refl)
  read_rounds_here zero (w ∷ ws) dropped n given enough h = absurd (omega (arith, enough))
  read_rounds_here (suc fuel) (w ∷ ws) dropped n given enough h = rw h refl

  -- No more words than `found` name a file; the others are given from the last to the first.
  abbrev pub NoneLonger : List Text → List Text → Type 0
  NoneLonger found [] = Unit
  NoneLonger found (l ∷ r) =
      (names_file (found ++ (backwards r ++ l ∷ [])) ≡ false) × NoneLonger found r

  read_rounds_lem :
      (found r : List Text) (fuel : ℕ) (dropped : Dict Text) (n : ℕ)
      → found ≢ []
      → length found + length r ≤ fuel
      → names_file found ≡ true
      → NoneLonger found r
      → read_rounds is_readable fuel (found ++ backwards r) dropped n
        ≡ (some found, number_from n r dropped)
  unfolding number_from backwards
  read_rounds_lem found [] fuel dropped n given enough h longer =
      rw (append-nil found) (read_rounds_here fuel found dropped n given (omega (arith, enough)) h)
  read_rounds_lem found (l ∷ r) zero dropped n given enough h longer =
      absurd (omega (arith, enough))
  read_rounds_lem found (l ∷ r) (suc fuel) dropped n given enough h (unread, longer) =
      rw (sym (append_assoc found (backwards r) (l ∷ []))) (
        read_rounds_drop fuel (found ++ backwards r) l dropped n
          (ap names_file (append_assoc found (backwards r) (l ∷ [])) ∙ unread)
        ∙ read_rounds_lem found r fuel (insert (variable n) l dropped) (suc n) given
            (omega (arith, enough)) h longer)

  length-backwards : (r : List Text) → length (backwards r) ≡ length r
  unfolding backwards
  length-backwards [] = refl
  length-backwards (l ∷ r) = omega (arith, length-append (backwards r) (l ∷ []), length-backwards r)

  -- The action's file is that of the longest sequence of first words that name one, and the other
  -- words are dropped, the last one as `$1`, if some first words name a file.
  pub read_action_definition-finds :
      (found r : List Text)
      → found ≢ []
      → names_file found ≡ true
      → NoneLonger found r
      → read_action_definition is_readable (found ++ backwards r) ≡ (some found, number_from 1 r [])
  unfolding read_action_definition
  read_action_definition-finds found r given h longer =
      read_rounds_lem found r _ [] 1 given
        (omega (arith, length-append found (backwards r), length-backwards r)) h longer
