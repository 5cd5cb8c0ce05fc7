-- ===== src/Actions/Steps.antt =====
-- What the variables in a step are replaced by.
use eris_cli.Base.{ℕ, ◌≡◌, refl, ◌≢◌, ap, ◌∙◌, true, [], ◌∷◌, ◌++◌, arith, ==_refl}
use eris_cli.Strings.{Text, has_prefix, strip_prefix, replace_all, replace_from}
use eris_cli.Strings.Laws.{Lacks}
use eris_cli.Dict.{Dict, lookup}
use eris_cli.Listing.Patterns.{is_digit}
use eris_cli.Actions.{find_variables, replace_variables, fix_step, or_blank}

replace_from-Lacks :
    (s new : Text) (d : ℕ) → Lacks b'$' s → replace_from 0 s (b'$' ∷ d ∷ []) new ≡ s
unfolding replace_from has_prefix strip_prefix
replace_from-Lacks [] new d h = refl
replace_from-Lacks (c ∷ s) new d h = ground (arith, replace_from-Lacks s new d (ground (arith, h)))

replace_from-append :
    (a s new : Text) (d : ℕ)
    → Lacks b'$' a
    → replace_from 0 (a ++ s) (b'$' ∷ d ∷ []) new ≡ a ++ replace_from 0 s (b'$' ∷ d ∷ []) new
unfolding replace_from has_prefix strip_prefix
replace_from-append [] s new d h = refl
replace_from-append (c ∷ a) s new d h =
    ground (arith, replace_from-append a s new d (ground (arith, h)))

replace_from_here :
    (s new : Text) (d : ℕ)
    → replace_from 0 (b'$' ∷ d ∷ s) (b'$' ∷ d ∷ []) new
      ≡ new ++ replace_from 0 s (b'$' ∷ d ∷ []) new
unfolding replace_from has_prefix strip_prefix
replace_from_here s new d = rw (replace_from, ==_refl d) refl

replace_from_other :
    (s new : Text) (d e : ℕ)
    → d ≢ e
    → is_digit d ≡ true
    → replace_from 0 (b'$' ∷ d ∷ s) (b'$' ∷ e ∷ []) new
      ≡ b'$' ∷ d ∷ replace_from 0 s (b'$' ∷ e ∷ []) new
unfolding replace_from has_prefix strip_prefix
replace_from_other s new d e h k = ground (arith, h, k)

find_variables-Lacks : (s : Text) → Lacks b'$' s → find_variables s ≡ []
unfolding find_variables
find_variables-Lacks [] h = refl
find_variables-Lacks (c ∷ []) h = refl
find_variables-Lacks (c ∷ d ∷ s) h =
    ground (arith, find_variables-Lacks (d ∷ s) (ground (arith, h)))

find_variables_here :
    (s : Text) (d : ℕ)
    → is_digit d ≡ true
    → find_variables (b'$' ∷ d ∷ s) ≡ (b'$' ∷ d ∷ []) ∷ find_variables s
unfolding find_variables
find_variables_here [] d h = ground (arith, h)
find_variables_here (c ∷ s) d h = ground (arith, h)

find_variables-append :
    (a s : Text) → Lacks b'$' a → find_variables (a ++ b'$' ∷ s) ≡ find_variables (b'$' ∷ s)
unfolding find_variables
find_variables-append [] s h = refl
find_variables-append (c ∷ []) s h = ground (arith, h)
find_variables-append (c ∷ d ∷ a) s h =
    ground (arith, find_variables-append (d ∷ a) s (ground (arith, h)))

-- The step after one variable: its text `w` stands in its place.
one_replaced :
    (a b w : Text) (d : ℕ)
    → Lacks b'$' a
    → Lacks b'$' b
    → replace_all (a ++ b'$' ∷ d ∷ b) (b'$' ∷ d ∷ []) w ≡ a ++ (w ++ b)
unfolding replace_all
one_replaced a b w d ha hb =
    replace_from-append a (b'$' ∷ d ∷ b) w d ha
    ∙ ap (λ t. a ++ t) (replace_from_here b w d ∙ ap (λ t. w ++ t) (replace_from-Lacks b w d hb))

-- In a step with one variable `$d` the variable's word takes its place, if it has one, else nothing
-- does; the text before and behind it, which has no dollar, stays.
pub fix_step_one :
    (dropped : Dict Text) (a b : Text) (d : ℕ)
    → Lacks b'$' a
    → Lacks b'$' b
    → is_digit d ≡ true
    → fix_step dropped (a ++ b'$' ∷ d ∷ b) ≡ a ++ (or_blank (lookup (b'$' ∷ d ∷ []) dropped) ++ b)
unfolding fix_step replace_variables
fix_step_one dropped a b d ha hb hd =
    rw (find_variables-append a (d ∷ b) ha, find_variables_here b d hd, find_variables-Lacks b hb)
      (one_replaced a b (or_blank (lookup (b'$' ∷ d ∷ []) dropped)) d ha hb)

two_found :
    (a b c : Text) (d e : ℕ)
    → Lacks b'$' a
    → Lacks b'$' b
    → Lacks b'$' c
    → is_digit d ≡ true
    → is_digit e ≡ true
    → find_variables (a ++ b'$' ∷ d ∷ (b ++ b'$' ∷ e ∷ c)) ≡ (b'$' ∷ d ∷ []) ∷ (b'$' ∷ e ∷ []) ∷ []
two_found a b c d e ha hb hc hd he = rw (
  find_variables-append a (d ∷ (b ++ b'$' ∷ e ∷ c)) ha,
  find_variables_here (b ++ b'$' ∷ e ∷ c) d hd,
  find_variables-append b (e ∷ c) hb,
  find_variables_here c e he,
  find_variables-Lacks c hc,
)

-- In a step with two variables only the second is replaced: the first one stays as it was.
pub fix_step_loses :
    (dropped : Dict Text) (a b c : Text) (d e : ℕ)
    → Lacks b'$' a
    → Lacks b'$' b
    → Lacks b'$' c
    → is_digit d ≡ true
    → is_digit e ≡ true
    → d ≢ e
    → fix_step dropped (a ++ b'$' ∷ d ∷ (b ++ b'$' ∷ e ∷ c))
      ≡ a ++ b'$' ∷ d ∷ (b ++ (or_blank (lookup (b'$' ∷ e ∷ []) dropped) ++ c))
unfolding fix_step replace_variables replace_all
fix_step_loses dropped a b c d e ha hb hc hd he differ =
    let w = or_blank (lookup (b'$' ∷ e ∷ []) dropped) in
    rw (two_found a b c d e ha hb hc hd he) (
      replace_from-append a (b'$' ∷ d ∷ (b ++ b'$' ∷ e ∷ c)) w e ha
      ∙ ap (λ t. a ++ t)
          (replace_from_other (b ++ b'$' ∷ e ∷ c) w d e differ hd
            ∙ ap (λ t. b'$' ∷ d ∷ t) (unfold replace_all in one_replaced b c w e hb hc)))
