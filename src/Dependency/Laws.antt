-- ===== src/Dependency/Laws.antt =====
-- What a dependency's description means, and what a volume's path becomes.
use eris_cli.Base.{
  ◌≡◌, refl, ◌≢◌, Bool, true, false, [], ◌∷◌, ◌++◌, some, arith, ◌∙◌, append_assoc, All-append, ap,
}
use eris_cli.Strings.{Text, codes, split, join, text_eq, contains, replace_first, strip_prefix}
use eris_cli.Strings.Laws.{Lacks, split_lacking, split-append, strip_prefix-append}
use eris_cli.Dependency.{Dependency, parse_dependency, fix_dir}

-- The third part that asks for a link, a mount, both or neither.
abbrev pub option_of : Bool → Bool → Text
option_of true true = []
option_of true false = codes "l"
option_of false true = codes "m"
option_of false false = codes "_"

pub print_dependency : Dependency → Text
print_dependency d = d.name ++ b':' ∷ (d.internal_name ++ b':' ∷ option_of d.link d.mount)

split_three :
    (a b c : Text)
    → Lacks b':' a
    → Lacks b':' b
    → Lacks b':' c
    → split (a ++ b':' ∷ (b ++ b':' ∷ c)) b':' ≡ a ∷ b ∷ c ∷ []
split_three a b c ha hb hc =
    rw (split-append a (b ++ b':' ∷ c) b':' ha, split-append b c b':' hb, split_lacking c b':' hc)

-- A dependency that is written as `name:internal name:option` is read back, for every name and
-- internal name with no colon, the internal one not empty, and every choice of link and mount.
pub parse-print_dependency :
    (name internal_name : Text) (link mount : Bool)
    → Lacks b':' name
    → Lacks b':' internal_name
    → internal_name ≢ []
    → (let d : Dependency = record {
      name = name;
      internal_name = internal_name;
      link = link;
      mount = mount;
    } in
        parse_dependency (print_dependency d) ≡ d)
unfolding parse_dependency print_dependency
parse-print_dependency name [] link mount hn hi given = absurd (given refl)
parse-print_dependency name (c ∷ s) true true hn hi given =
    rw (split_three name (c ∷ s) (option_of true true) hn hi (omega arith)) (unfold text_eq in refl)
parse-print_dependency name (c ∷ s) true false hn hi given =
    rw (split_three name (c ∷ s) (option_of true false) hn hi (omega arith))
      (unfold text_eq in refl)
parse-print_dependency name (c ∷ s) false true hn hi given =
    rw (split_three name (c ∷ s) (option_of false true) hn hi (omega arith))
      (unfold text_eq in refl)
parse-print_dependency name (c ∷ s) false false hn hi given =
    rw (split_three name (c ∷ s) (option_of false false) hn hi (omega arith))
      (unfold text_eq in refl)

replace_first_prefix :
    (s old new rest : Text) → strip_prefix old s ≡ some rest → replace_first s old new ≡ new ++ rest
unfolding replace_first
replace_first_prefix [] old new rest h = rw (h, replace_first)
replace_first_prefix (c ∷ s) old new rest h = rw (h, replace_first)

replace_first-append : (old rest new : Text) → replace_first (old ++ rest) old new ≡ new ++ rest
unfolding replace_first
replace_first-append old rest new =
    replace_first_prefix (old ++ rest) old new rest (strip_prefix-append old rest)

replace_first_cut :
    (head keep : Text) → replace_first (head ++ b':' ∷ keep) (head ++ b':' ∷ []) [] ≡ keep
replace_first_cut head keep =
    rw (← append_assoc head (b':' ∷ []) keep) (replace_first-append (head ++ b':' ∷ []) keep [])

fix_dir_head :
    (eris_root dir head keep : Text)
    → Lacks b':' head
    → contains (head ++ b':' ∷ keep) (codes "$eris") ≡ true
    → fix_dir eris_root dir (head ++ b':' ∷ keep)
      ≡ replace_first head (codes "$eris") eris_root ++ b':' ∷ keep
unfolding fix_dir
fix_dir_head eris_root dir head keep h k =
    rw (k, split-append head keep b':' h, replace_first_cut head keep) (unfold join in refl)

fix_dir_eris :
    (eris_root dir rest keep : Text)
    → Lacks b':' rest
    → fix_dir eris_root dir (codes "$eris" ++ (rest ++ b':' ∷ keep))
      ≡ eris_root ++ (rest ++ b':' ∷ keep)
unfolding contains
fix_dir_eris eris_root dir rest keep h =
    fix_dir_head eris_root dir (codes "$eris" ++ rest) keep
      (All-append _ (codes "$eris") rest (omega arith) h) refl
    ∙ ap (λ t. t ++ b':' ∷ keep) (replace_first-append (codes "$eris") rest eris_root)
    ∙ append_assoc eris_root rest (b':' ∷ keep)

-- In a volume `$eris<path>:<path in the container>` the program's directory takes the place of
-- `$eris` and the rest stays; so does the working directory that of a leading `$pwd`, if the volume
-- does not name `$eris`.
pub fix_dir_expands :
    (eris_root dir rest keep tail : Text)
    → Lacks b':' rest
    → contains (codes "$pwd" ++ tail) (codes "$eris") ≡ false
    → (fix_dir eris_root dir (codes "$eris" ++ (rest ++ b':' ∷ keep))
        ≡ eris_root ++ (rest ++ b':' ∷ keep))
      × (fix_dir eris_root dir (codes "$pwd" ++ tail) ≡ dir ++ tail)
unfolding fix_dir
fix_dir_expands eris_root dir rest keep tail h k =
    (fix_dir_eris eris_root dir rest keep h, rw k (unfold contains replace_first in refl))
