-- ===== src/Listing/Patterns.antt =====
-- The regular expressions of util/container_info.go and util/container_stats.go, as matchers.
-- All but `\A…\z` match anywhere in the text, as `MatchString` does. The types that the program
-- asks for hold no special character. Container names hold letters, digits and `_.-`, of which
-- only the dot is special in a pattern.
use eris_cli.Base.{
  ℕ, ◌≡◌, refl, ◌∙◌, ◌≢◌, Bool, true, false, ◌&&◌, ◌||◌, not, none, some, [], ◌∷◌, ◌++◌, arith,
  ◌==◌, leb, if◌then◌else◌,
}
use eris_cli.Strings.{Text, codes, strip_prefix}
use eris_cli.Strings.Laws.{Lacks, strip_prefix-append}

abbrev pub is_digit : ℕ → Bool
is_digit c = leb b'0' c && leb c b'9'

abbrev newline : ℕ
newline = 10

-- `_\d`
underscore_digit : Text → Bool
underscore_digit (a ∷ b ∷ s) = a == b'_' && is_digit b
underscore_digit _ = false

-- `(.+?)_\d` at the start of the text
name_then_number : Text → Bool
unfolding underscore_digit
name_then_number [] = false
name_then_number (c ∷ s) = not (c == newline) && (underscore_digit s || name_then_number s)

after_prefix : Text → Text → Bool
unfolding name_then_number
after_prefix prefix s = elim (strip_prefix prefix s) [
  | none ↦ false
  | some rest ↦ name_then_number rest
]

abbrev pub type_prefix : Text → Text
type_prefix typ = codes "/eris_" ++ (typ ++ codes "_")

-- `\/eris_<typ>_(.+?)_(\d+)`
unfoldable pub eris_reg_exp : Text → Text → Bool
unfolding after_prefix strip_prefix
eris_reg_exp typ [] = false
eris_reg_exp typ (c ∷ s) = after_prefix (type_prefix typ) (c ∷ s) || eris_reg_exp typ s

-- `\/eris_(?:service|chain|data)_(.+)_\d`
unfoldable pub eris_reg_exp_any : Text → Bool
unfolding eris_reg_exp
eris_reg_exp_any s =
    eris_reg_exp (codes "service") s
    || (eris_reg_exp (codes "chain") s || eris_reg_exp (codes "data") s)

-- `.+` up to the end of the text
one_line : Text → Bool
one_line [] = true
one_line (c ∷ s) = not (c == newline) && one_line s

-- `\d+/(.+?)\z`, where a flag says that a digit was read
digits_slash : Bool → Text → Bool
unfolding one_line
digits_slash seen [] = false
digits_slash seen (c ∷ []) = false
digits_slash seen (c ∷ d ∷ s) =
    if is_digit c then digits_slash true (d ∷ s) else seen && (c == b'/' && one_line (d ∷ s))

number_slash : Text → Bool
unfolding digits_slash
number_slash [] = false
number_slash (c ∷ s) = c == b'_' && digits_slash false s

-- `(.+?)_\d+/(.+?)\z`
link_tail : Text → Bool
unfolding number_slash
link_tail [] = false
link_tail (c ∷ s) = not (c == newline) && (number_slash s || link_tail s)

-- `\A\/eris_<typ>_(.+?)_\d+/(.+?)\z`
unfoldable pub eris_reg_exp_links : Text → Text → Bool
unfolding link_tail strip_prefix
eris_reg_exp_links typ s = elim (strip_prefix (type_prefix typ) s) [
  | none ↦ false
  | some rest ↦ link_tail rest
]

matches_here : Text → Text → Bool
matches_here [] s = true
matches_here (p ∷ ps) [] = false
matches_here (p ∷ ps) (c ∷ s) =
    (if p == b'.' then not (c == newline) else p == c) && matches_here ps s

-- A container's name as a pattern, as `ParseContainers` compiles it.
unfoldable pub name_pattern : Text → Text → Bool
unfolding matches_here
name_pattern pattern [] = matches_here pattern []
name_pattern pattern (c ∷ s) = matches_here pattern (c ∷ s) || name_pattern pattern s

-- A text that a `.` of a pattern takes.
abbrev pub IsLine : Text → Type 0
IsLine = Lacks newline

name_then_number_lem :
    (name : Text) (d : ℕ) (s : Text)
    → name ≢ []
    → IsLine name
    → is_digit d ≡ true
    → name_then_number (name ++ b'_' ∷ d ∷ s) ≡ true
unfolding name_then_number
name_then_number_lem [] d s h _ hd = absurd (h refl)
name_then_number_lem (c ∷ []) d s h (hc, _) hd = ground arith
name_then_number_lem (c ∷ b ∷ name) d s h (hc, hs) hd =
    ground (arith, name_then_number_lem (b ∷ name) d s (cc) hs hd)

after_prefix-append : (p rest : Text) → after_prefix p (p ++ rest) ≡ name_then_number rest
unfolding after_prefix
after_prefix-append p rest = rw (strip_prefix-append p rest, after_prefix)

eris_reg_exp_here :
    (typ s : Text) → after_prefix (type_prefix typ) s ≡ true → s ≢ [] → eris_reg_exp typ s ≡ true
unfolding eris_reg_exp
eris_reg_exp_here typ [] h k = absurd (k refl)
eris_reg_exp_here typ (c ∷ s) h k = rw h

-- The pattern of a type finds every Docker name of that type with a short name and a number.
pub eris_reg_exp_lem :
    (typ name : Text) (d : ℕ) (s : Text)
    → name ≢ []
    → IsLine name
    → is_digit d ≡ true
    → eris_reg_exp typ (type_prefix typ ++ (name ++ b'_' ∷ d ∷ s)) ≡ true
eris_reg_exp_lem typ name d s h hn hd =
    eris_reg_exp_here typ _
      (after_prefix-append (type_prefix typ) _ ∙ name_then_number_lem name d s h hn hd) (cc)

digits_slash_lacking : (seen : Bool) (s : Text) → Lacks b'/' s → digits_slash seen s ≡ false
unfolding digits_slash
digits_slash_lacking seen [] h = refl
digits_slash_lacking seen (c ∷ []) h = refl
digits_slash_lacking seen (c ∷ d ∷ s) (hc, hs) =
    rw (digits_slash_lacking true (d ∷ s) hs) (ground arith)

number_slash_lacking : (s : Text) → Lacks b'/' s → number_slash s ≡ false
unfolding number_slash
number_slash_lacking [] h = refl
number_slash_lacking (c ∷ s) (hc, hs) = ground (arith, digits_slash_lacking false s)

link_tail_lacking : (s : Text) → Lacks b'/' s → link_tail s ≡ false
unfolding link_tail
link_tail_lacking [] h = refl
link_tail_lacking (c ∷ s) (hc, hs) = ground (arith, number_slash_lacking s, link_tail_lacking s)

-- A name with no slash behind the type is not taken for a link.
pub eris_reg_exp_links_lacking :
    (typ rest : Text) → Lacks b'/' rest → eris_reg_exp_links typ (type_prefix typ ++ rest) ≡ false
unfolding eris_reg_exp_links
eris_reg_exp_links_lacking typ rest h =
    rw (strip_prefix-append (type_prefix typ) rest, eris_reg_exp_links) (link_tail_lacking rest h)

matches_here_self : (p s : Text) → IsLine p → matches_here p (p ++ s) ≡ true
unfolding matches_here
matches_here_self [] s h = refl
matches_here_self (c ∷ p) s (hc, hp) = ground (arith, matches_here_self p s)

-- A pattern finds itself anywhere in a text.
pub name_pattern_within :
    (before p after : Text) → IsLine p → name_pattern p (before ++ (p ++ after)) ≡ true
unfolding name_pattern
name_pattern_within [] [] [] h = refl
name_pattern_within [] [] (c ∷ after) h = refl
name_pattern_within [] (c ∷ p) after h = rw (matches_here_self (c ∷ p) after h)
name_pattern_within (b ∷ before) p after h = ground (arith, name_pattern_within before p after h)
