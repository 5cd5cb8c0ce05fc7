-- ===== src/Services/Definitions/Misplaced.antt =====
-- Where a rename puts the definition file if the directory has the old name in its path.
use eris_cli.Base.{
  ◌≡◌, refl, sym, ap, append_assoc, append-nil, ◌≤◌, inl, inr, true, Bool-cases, none, some,
  Option-cases, [], ◌∷◌, ◌++◌, length, ◌==◌, arith,
}
use eris_cli.Strings.{Text, text_eq, strip_prefix, has_prefix, contains, replace_first}
use eris_cli.Command.Machine.{ext, renamed_file}

within :
    (p s rest : Text)
    → length p ≤ length s
    → strip_prefix p s ≡ none
    → strip_prefix p (s ++ rest) ≡ none
unfolding strip_prefix
within [] s rest le h = absurd (cc h)
within (p ∷ ps) [] rest le h = absurd (omega arith)
within (p ∷ ps) (c ∷ s) rest le h = elim (Bool-cases (p == c)) [
  | inl same ↦ rw same (within ps s rest (omega arith) (rw (same, strip_prefix) at h))
  | inr differs ↦ rw differs refl
]

strip_prefix-length : (p s r : Text) → strip_prefix p s ≡ some r → length p ≤ length s
unfolding strip_prefix
strip_prefix-length [] s r h = omega arith
strip_prefix-length (p ∷ ps) [] r h = absurd (cc h)
strip_prefix-length (p ∷ ps) (c ∷ s) r h = elim (Bool-cases (p == c)) [
  | inl same ↦ omega (arith, strip_prefix-length ps s r (rw (same, strip_prefix) at h))
  | inr differs ↦ absurd (cc (rw (differs, strip_prefix) at h))
]

contains-length : (p s : Text) → contains s p ≡ true → length p ≤ length s
unfolding contains has_prefix
contains-length p [] h = elim (Option-cases (strip_prefix p [])) [
  | inl missing ↦ absurd (cc (rw (missing, contains, has_prefix) at h))
  | inr (r, found) ↦ strip_prefix-length p [] r found
]
contains-length p (c ∷ s) h = elim (Option-cases (strip_prefix p (c ∷ s))) [
  | inl missing ↦ omega (arith, contains-length p s (rw (missing, contains, has_prefix) at h))
  | inr (r, found) ↦ strip_prefix-length p (c ∷ s) r found
]

strip_prefix-longer :
    (p s r rest : Text) → strip_prefix p s ≡ some r → strip_prefix p (s ++ rest) ≡ some (r ++ rest)
unfolding strip_prefix
strip_prefix-longer [] s r rest h = cc h
strip_prefix-longer (p ∷ ps) [] r rest h = absurd (cc h)
strip_prefix-longer (p ∷ ps) (c ∷ s) r rest h = elim (Bool-cases (p == c)) [
  | inl same ↦ rw same (strip_prefix-longer ps s r rest (rw (same, strip_prefix) at h))
  | inr differs ↦ absurd (cc (rw (differs, strip_prefix) at h))
]

pub replace_first-append :
    (dir rest old new : Text)
    → contains dir old ≡ true
    → replace_first (dir ++ rest) old new ≡ replace_first dir old new ++ rest
unfolding replace_first contains has_prefix
replace_first-append [] [] [] new h = sym (append-nil (new ++ []))
replace_first-append [] (c ∷ rest) [] new h = rw (append-nil new) refl
replace_first-append [] rest (o ∷ old) new h = absurd (cc h)
replace_first-append (c ∷ s) rest old new h = elim (Option-cases (strip_prefix old (c ∷ s))) [
  | inr (r, found) ↦
      rw (found, strip_prefix-longer old (c ∷ s) r rest found, replace_first)
        (sym (append_assoc new r rest))
  | inl missing ↦
      let inside = rw (missing, contains, has_prefix) at h in
      let le = contains-length old s inside in
      rw (missing, within old (c ∷ s) rest (omega arith) missing, replace_first)
        (ap (λ t. c ∷ t) (replace_first-append s rest old new inside))
]

-- If the name of a service occurs in the path before the file, a rename to a name without extension
-- changes that path, and leaves the name of the file as it was.
pub renamed_file-misplaces :
    (join : Text → Text → Text) (dir before file name new_name : Text)
    → text_eq (ext new_name) [] ≡ true
    → contains before name ≡ true
    → renamed_file join dir (before ++ file) name new_name
      ≡ replace_first before name new_name ++ file
unfolding renamed_file
renamed_file-misplaces join dir before file name new_name plain inside =
    rw (plain, renamed_file) (replace_first-append before file name new_name inside)
