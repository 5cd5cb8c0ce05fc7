-- ===== src/Listing/Listed.antt =====
-- `ParseContainers` finds what the daemon lists.
use eris_cli.Base.{◌≡◌, refl, Bool, true, List, [], ◌∷◌, ◌++◌, arith, sym, ◌∙◌, ap, append-nil}
use eris_cli.Strings.{Text, codes, is_some}
use eris_cli.Docker.{ApiContainer, DockerClient, done}
use eris_cli.Listing.Patterns.{IsLine, name_pattern, name_pattern_within, eris_reg_exp_any}
use eris_cli.Listing.{
  find_matching, first_match, keep_eris, repeat_matches, listed, parse_containers,
}

-- A container of that name is on the daemon's list; it may have other names too.
pub record Lists (contns : List ApiContainer) (name : Text) : Type 0 where
  pub before : List ApiContainer
  pub container : ApiContainer
  pub after : List ApiContainer
  pub splits : contns ≡ before ++ container ∷ after
  pub names_before : List Text
  pub names_after : List Text
  pub named : container.names ≡ names_before ++ (codes "/" ++ name) ∷ names_after

find_matching-append :
    (pattern : Text) (xs ys : List ApiContainer)
    → is_some (find_matching pattern ys) ≡ true
    → is_some (find_matching pattern (xs ++ ys)) ≡ true
unfolding find_matching
find_matching-append pattern [] ys h = h
find_matching-append pattern (x ∷ xs) ys h = ground (arith, find_matching-append pattern xs ys h)

name_pattern_slash : (name : Text) → IsLine name → name_pattern name (codes "/" ++ name) ≡ true
name_pattern_slash name h =
    ap (λ t. name_pattern name (b'/' ∷ t)) (sym (append-nil name))
    ∙ name_pattern_within (codes "/") name [] h

first_match-named :
    (name : Text) (xs ys : List Text)
    → IsLine name
    → first_match name (xs ++ (codes "/" ++ name) ∷ ys) ≡ true
unfolding first_match
first_match-named name [] ys h = rw (name_pattern_slash name h) refl
first_match-named name (x ∷ xs) ys h = ground (arith, first_match-named name xs ys h)

keep_eris-named :
    (con : ApiContainer) (pattern y : Text) (xs ys : List Text) (rest : List ApiContainer)
    → eris_reg_exp_any y ≡ true
    → first_match pattern con.names ≡ true
    → is_some (find_matching pattern (repeat_matches con (xs ++ y ∷ ys) ++ rest)) ≡ true
unfolding find_matching repeat_matches
keep_eris-named con pattern y [] ys rest h k = rw (h, k) refl
keep_eris-named con pattern y (x ∷ xs) ys rest h k =
    ground (arith, keep_eris-named con pattern y xs ys rest h k)

find_matching-keep_eris :
    (name : Text) (before after : List ApiContainer) (con : ApiContainer) (xs ys : List Text)
    → IsLine name
    → eris_reg_exp_any (codes "/" ++ name) ≡ true
    → con.names ≡ xs ++ (codes "/" ++ name) ∷ ys
    → is_some (find_matching name (keep_eris (before ++ con ∷ after))) ≡ true
unfolding keep_eris
find_matching-keep_eris name [] after con xs ys line valid named =
    ap (λ ns. is_some (find_matching name (repeat_matches con ns ++ keep_eris after))) named
    ∙ keep_eris-named con name _ xs ys (keep_eris after) valid
        (ap (first_match name) named ∙ first_match-named name xs ys line)
find_matching-keep_eris name (b ∷ before) after con xs ys line valid named =
    find_matching-append name (repeat_matches b b.names) _
      (find_matching-keep_eris name before after con xs ys line valid named)

-- A container that the daemon lists under an Eris name is found by that name: some container is.
pub parse_containers-Lists :
    (D : DockerClient) (s : D.State) (name : Text) (all : Bool) (contns : List ApiContainer)
    → IsLine name
    → eris_reg_exp_any (codes "/" ++ name) ≡ true
    → D.list_containers all s ≡ done contns
    → Lists contns name
    → is_some (parse_containers D s name all) ≡ true
unfolding parse_containers
parse_containers-Lists D s name all contns line valid listing h =
    rw (listing, listed, h.splits)
      (find_matching-keep_eris name h.before h.after h.container h.names_before h.names_after line
        valid h.named)
