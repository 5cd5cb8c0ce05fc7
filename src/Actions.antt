-- ===== src/Actions.antt =====
-- Finding the definition of an action from the words of a command, and the variables in its steps
-- (actions/load.go).
pub mod Manage
pub mod Perform
pub mod Steps
pub mod Words
use eris_cli.Base.{
  ℕ, zero, suc, ◌-◌, Bool, true, false, Option, none, some, List, [], ◌∷◌, ◌++◌, map, length,
  if◌then◌else◌, ◌==◌, ◌&&◌,
}
use eris_cli.Base.Int.{pos}
use eris_cli.Strings.{Text, codes, text_eq, contains, replace_first, replace_all, join}
use eris_cli.Strings.Decimal.{itoa}
use eris_cli.Dict.{Dict, insert, lookup}
use eris_cli.Listing.Patterns.{is_digit}

-- The words that are not variables, and the variables `name:value` as `name=value`.
unfoldable pub cull_cli_variables : List Text → List Text × List Text
cull_cli_variables [] = ([], [])
cull_cli_variables (a ∷ act) =
    let (action, vars) = cull_cli_variables act in
    if contains a (codes ":")
    then (action, replace_first a (codes ":") (codes "=") ∷ vars)
    else (a ∷ action, vars)

-- `fmt.Sprintf("$%d", n)`
unfoldable pub variable : ℕ → Text
variable n = b'$' ∷ itoa (pos n)

abbrev pub or_blank : Option Text → Text
or_blank none = []
or_blank (some s) = s

-- All words but the last, and the last.
unfoldable pub split_last : Text → List Text → List Text × Text
split_last w [] = ([], w)
split_last w (v ∷ vs) = let (front, l) = split_last v vs in (w ∷ front, l)

-- `is_readable` tells whether `ReadInConfig` succeeds on the file of a name.
module _ (is_readable : Text → Bool) where
  -- The fuel is the number of words: each round drops one.
  unfoldable pub read_rounds : ℕ → List Text → Dict Text → ℕ → Option (List Text) × Dict Text
  unfolding split_last variable
  read_rounds fuel [] dropped var_num = (none, dropped)
  read_rounds zero (w ∷ ws) dropped var_num = (none, dropped)
  read_rounds (suc fuel) (w ∷ ws) dropped var_num =
      let (front, l) = split_last w ws in
      let rest = read_rounds fuel front (insert (variable var_num) l dropped) (suc var_num) in
      if is_readable (join (w ∷ ws) (codes "_")) then (some (w ∷ ws), dropped) else rest

  -- The words that name the file, if one is found, and the words that were dropped.
  unfoldable pub read_action_definition : List Text → Option (List Text) × Dict Text
  unfolding read_rounds
  read_action_definition words = read_rounds (length words) words [] 1

-- The loop that numbers the dropped words from the first: `i` counts down, `j` up.
unfoldable pub reverse_dropped : ℕ → ℕ → Dict Text → Dict Text → Dict Text
unfolding variable
reverse_dropped zero j drop_reversed dropped = dropped
reverse_dropped (suc i) j drop_reversed dropped =
    reverse_dropped i (suc j) drop_reversed
      (insert (variable j) (or_blank (lookup (variable (suc i)) drop_reversed)) dropped)

-- `FindAllString` of a dollar and a digit.
unfoldable pub find_variables : Text → List Text
find_variables [] = []
find_variables (c ∷ []) = []
find_variables (c ∷ d ∷ s) =
    let rest = find_variables (d ∷ s) in
    if c == b'$' && is_digit d then (c ∷ d ∷ []) ∷ rest else rest

-- The loop over the variables in a step: each round starts from the step as it was.
unfoldable pub replace_variables : Text → Dict Text → List Text → Text → Text
replace_variables step dropped [] fixed = fixed
replace_variables step dropped (m ∷ ms) fixed =
    replace_variables step dropped ms (replace_all step m (or_blank (lookup m dropped)))

unfoldable pub fix_step : Dict Text → Text → Text
unfolding find_variables replace_variables
fix_step dropped step = replace_variables step dropped (find_variables step) step

unfoldable pub fix_steps : List Text → Dict Text → List Text
unfolding reverse_dropped fix_step
fix_steps steps drop_reversed =
    if length drop_reversed == 0
    then steps
    else map (fix_step (reverse_dropped (length drop_reversed) 1 drop_reversed [])) steps

unfoldable pub fix_chain : List Text → Text → List Text
fix_chain steps chain_name =
    if text_eq chain_name []
    then steps
    else map (λ step. replace_all step (codes "$chain") chain_name) steps
