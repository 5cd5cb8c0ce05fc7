-- ===== src/Listing/Reports/Shown.antt =====
-- Which chains `chains ls --known` shows.
use eris_cli.Base.{
  ◌≡◌, ◌≢◌, refl, Bool, true, false, Bool-cases, inl, inr, ◌||◌, List, [], ◌∷◌, All,
}
use eris_cli.Strings.{Text, codes, text_eq, split}
use eris_cli.Strings.Laws.{text_eq_iff, text_eq_refl, Lacks, split-join}
use eris_cli.Files.{is_listed, config_files}
use eris_cli.Head.{HeadFile}
use eris_cli.Listing.Reports.{head_name, mark_head, mark_chains, list_known}

or_true : (b : Bool) → (b || true) ≡ true
or_true true = refl
or_true false = refl

mark_chains-lists :
    (head name : Text) (chns : List Text)
    → is_listed name chns ≡ true
    → text_eq name (codes "default") ≡ false
    → is_listed (mark_head head name) (mark_chains head chns) ≡ true
unfolding mark_chains is_listed
mark_chains-lists head name [] h other = absurd (cc h)
mark_chains-lists head name (c ∷ chns) h other = elim (Bool-cases (text_eq c name)) [
  | inl same ↦
      rw ((text_eq_iff c name).0 same, other, is_listed, text_eq_refl (mark_head head name)) refl
  | inr differs ↦
      let rest = mark_chains-lists head name chns (rw (differs, is_listed) at h) other in
      elim (Bool-cases (text_eq c (codes "default"))) [
        | inl hidden ↦ rw (hidden, mark_chains) rest
        | inr shown ↦
            rw (shown, mark_chains, is_listed, rest)
              (or_true (text_eq (mark_head head c) (mark_head head name)))
      ]
]

lists-ne-nil : (name : Text) (names : List Text) → is_listed name names ≡ true → names ≢ []
unfolding is_listed
lists-ne-nil name [] h e = absurd (cc h)
lists-ne-nil name (n ∷ names) h e = absurd (cc e)

-- If the lines that `chains ls --known` prints have no newline inside, each known chain other than
-- "default" stands on a line of its own, with a star if it is the chain at the head.
pub list_known-shows :
    (glob : Text → Text → List Text) (f : HeadFile) (name : Text)
    → is_listed name (config_files glob (codes "chains") false) ≡ true
    → text_eq name (codes "default") ≡ false
    → All (Lacks b'\n') (mark_chains (head_name f) (config_files glob (codes "chains") false))
    → is_listed (mark_head (head_name f) name) (split (list_known glob f (codes "chains")) b'\n')
      ≡ true
unfolding list_known text_eq
list_known-shows glob f name known other whole =
    let shown =
      mark_chains-lists (head_name f) name (config_files glob (codes "chains") false) known other in
    rw
      (split-join (mark_chains (head_name f) (config_files glob (codes "chains") false)) b'\n'
        (lists-ne-nil (mark_head (head_name f) name) _ shown) whole)
      shown
