-- ===== src/Migrate/Moves.antt =====
-- Which files a migration moves.
use eris_cli.Base.{
  ◌≡◌, ap, subst, true, false, Bool-cases, inl, inr, some, Option-cases, List, [], ◌∷◌, All,
}
use eris_cli.Strings.{Text}
use eris_cli.Files.{is_listed}
use eris_cli.Migrate.{FileSystem, migrated, move_files, check_file_names_and_migrate}

module _ (F : FileSystem) where
  -- The files move, one after the other, from one directory to another.
  pub data Moved (dep new : Text) : List Text → F.State → F.State → Type 0 where
    all_moved : {s : F.State} → Moved dep new [] s s
    moved :
        {file : Text} {files : List Text} {s t u : F.State}
        → F.rename (F.join dep file) (F.join new file) s ≡ (true, t)
        → Moved dep new files t u
        → Moved dep new (file ∷ files) s u

  -- All files of the deprecated directory moved, and none has the name of a file of the new one.
  pub record Merged (dep new : Text) (s t : F.State) : Type 0 where
    pub files : List Text
    pub taken : List Text
    pub files_read : F.read_dir dep s ≡ some files
    pub taken_read : F.read_dir new s ≡ some taken
    pub fresh : All (λ file. is_listed file taken ≡ false) files
    pub moves : Moved dep new files s t

  move_files-Moved :
      (dep new : Text) (taken files : List Text) (s t : F.State)
      → move_files F dep new taken files s ≡ (migrated, t)
      → All (λ file. is_listed file taken ≡ false) files × Moved dep new files s t
  unfolding move_files
  move_files-Moved dep new taken [] s t h =
      (tt, subst (λ u. Moved dep new [] s u) (ap (λ p. p.1) h) all_moved)
  move_files-Moved dep new taken (file ∷ files) s t h =
      let ran = F.rename (F.join dep file) (F.join new file) s in
      elim (Bool-cases (is_listed file taken)) [
        | inl clash ↦ absurd (cc (rw (clash, move_files) at h))
        | inr free ↦ elim (Bool-cases ran.0) [
          | inl fine ↦
              let (fresh, moves) =
                move_files-Moved dep new taken files ran.1 t (rw (free, fine, move_files) at h) in
              ((free, fresh), moved (ap (λ b. (b, ran.1)) fine) moves)
          | inr bad ↦ absurd (cc (rw (free, bad, move_files) at h))
        ]
      ]

  -- If the files of a deprecated directory are merged into the new one, all of them moved, each under a
  -- name that the new directory did not have before, so that no file was written over.
  pub check_file_names_and_migrate-Merged :
      (dep new : Text) (s t : F.State)
      → check_file_names_and_migrate F dep new s ≡ (migrated, t)
      → Merged dep new s t
  unfolding check_file_names_and_migrate
  check_file_names_and_migrate-Merged dep new s t h = elim (Option-cases (F.read_dir dep s)) [
    | inl unread ↦ absurd (cc (rw (unread, check_file_names_and_migrate) at h))
    | inr (files, e) ↦ elim (Option-cases (F.read_dir new s)) [
      | inl unread ↦ absurd (cc (rw (e, unread, check_file_names_and_migrate) at h))
      | inr (taken, e') ↦
          let (fresh, moves) =
            move_files-Moved dep new taken files s t
              (rw (e, e', check_file_names_and_migrate) at h) in
          record {
            files = files;
            taken = taken;
            files_read = e;
            taken_read = e';
            fresh = fresh;
            moves = moves;
          }
    ]
  ]
