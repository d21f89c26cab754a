-- ===== src/Staging/Restored.antt =====
-- A snapshot that is restored gives the files back: `restore_snapshot` of
-- src/host/workload/transaction.rs after the snapshot of src/host/workload/deployment.rs.
use komizo.Prelude.{
  ℕ, arith, ◌≡◌, refl, sym, ap, ◌∙◌, true, false, Option, none, some, List, [], ◌∷◌, map,
  if◌then◌else◌, All, Text, text_eq, text_eq_refl,
}
use komizo.Prelude.Result.{Fault, Result, ok, err, ok-injective}
use komizo.Prelude.Exec.{pure, >>=-eq-ok, >>-eq-ok, ◌>>◌, continue}
use mathlib.Core.Path.{subst}
use komizo.Operation.Record.{Write, refused, unsynced, written}
use komizo.Reconciliation.Request.{StagedFile}
use komizo.Staging.Files.{
  File, Files, set, FileEffects, private, permissions, after_write, after_remove, Installed,
  write_file, remove_file, found_file, stat_file, take_snapshot, restore_file, restore_snapshot,
}

-- The file that a snapshot tells of.
abbrev pub told : StagedFile → Option File
told file = if file.exists then some (record { body = file.body; mode = file.mode }) else none

-- A file without the bits of its mode that are no permissions, which a snapshot leaves out.
abbrev pub seen : Option File → Option File
seen none = none
seen (some file) = some (record { body = file.body; mode = permissions file.mode })

abbrev pub Tells : Files → List StagedFile → Type 0
Tells files snapshot =
    All (λ (file : StagedFile). seen (files file.path) ≡ seen (told file)) snapshot

abbrev pub paths_of : List StagedFile → List Text
paths_of files = map (λ (f : StagedFile). f.path) files

-- No path stands twice.
abbrev pub Apart : List Text → Type 0
Apart [] = Unit {0}
Apart (path ∷ paths) = All (λ other. text_eq path other ≡ false) paths × Apart paths

permissions_idem : (mode : ℕ) → permissions mode ≡ permissions (permissions mode)
permissions_idem mode = omega arith

set_here : (path : Text) (file : Option File) (files : Files) → set path file files path ≡ file
unfolding set
set_here path file files = rw (text_eq_refl path) refl

set_other :
    (path other : Text) (file : Option File) (files : Files)
    → text_eq other path ≡ false
    → set path file files other ≡ files other
unfolding set
set_other path other file files e = rw e refl

after_write-here :
    (w : Write) (file : File) (files : Files) (path : Text)
    → (after_write w file files path).0 ≡ ok tt
    → (after_write w file files path).1 path ≡ some file
unfolding after_write
after_write-here (refused f) file files path e = cc
after_write-here (unsynced f) file files path e = cc
after_write-here written file files path e = set_here path (some file) files

after_write-other :
    (w : Write) (file : File) (files : Files) (path other : Text)
    → text_eq other path ≡ false
    → (after_write w file files path).1 other ≡ files other
unfolding after_write
after_write-other (refused f) file files path other e = refl
after_write-other (unsynced f) file files path other e =
    set_other path other (some (record { body = file.body; mode = private })) files e
after_write-other written file files path other e = set_other path other (some file) files e

after_remove-here :
    (failure : Option Fault) (files : Files) (path : Text)
    → (after_remove failure files path).0 ≡ ok tt
    → (after_remove failure files path).1 path ≡ none
unfolding after_remove
after_remove-here (some f) files path e = cc
after_remove-here none files path e = set_here path none files

after_remove-other :
    (failure : Option Fault) (files : Files) (path other : Text)
    → text_eq other path ≡ false
    → (after_remove failure files path).1 other ≡ files other
unfolding after_remove
after_remove-other (some f) files path other e = refl
after_remove-other none files path other e = set_other path other none files e

module _ {S : Type 0} (x : FileEffects S) where
  restore_file-here :
      (file : StagedFile) (st : Installed S)
      → (restore_file x file st).0 ≡ ok tt
      → (restore_file x file st).1.files file.path ≡ told file
  unfolding restore_file write_file remove_file
  restore_file-here file st =
      elim file.exists
        as (λ b.
          ((if b then write_file x file.path file.body file.mode else remove_file x file.path) st).0
            ≡ ok tt
          → ((if b then write_file x file.path file.body file.mode else remove_file x file.path)
                st).1.files
              file.path
            ≡ (if b then some (record { body = file.body; mode = file.mode }) else none)) [
              | true ↦
                  after_write-here (x.write file.path st.rest).0
                    (record { body = file.body; mode = file.mode }) st.files file.path
              | false ↦ after_remove-here (x.remove file.path st.rest).0 st.files file.path
            ]

  restore_file-other :
      (file : StagedFile) (st : Installed S) (path : Text)
      → text_eq path file.path ≡ false
      → (restore_file x file st).1.files path ≡ st.files path
  unfolding restore_file write_file remove_file
  restore_file-other file st path e =
      elim file.exists
        as (λ b.
          ((if b then write_file x file.path file.body file.mode else remove_file x file.path)
              st).1.files
            path
          ≡ st.files path) [
            | true ↦
                after_write-other (x.write file.path st.rest).0
                  (record { body = file.body; mode = file.mode }) st.files file.path path e
            | false ↦ after_remove-other (x.remove file.path st.rest).0 st.files file.path path e
          ]

  restore_snapshot-other :
      (files : List StagedFile) (st : Installed S) (path : Text)
      → All (λ other. text_eq path other ≡ false) (paths_of files)
      → (restore_snapshot x files st).1.files path ≡ st.files path
  unfolding restore_snapshot ◌>>◌
  restore_snapshot-other [] st path h = refl
  restore_snapshot-other (file ∷ files) st path (h, hs) =
      let st1 = (restore_file x file st).1 in
      let same = restore_file-other file st path h in
      elim (restore_file x file st).0
        as (λ r. (continue r (λ u. restore_snapshot x files) st1).1.files path ≡ st.files path) [
          | ok t ↦ restore_snapshot-other files st1 path hs ∙ same
          | err f ↦ same
        ]

  -- Where every file could be restored, the files are those of the snapshot.
  pub restore_snapshot-Tells :
      (files : List StagedFile) (st st' : Installed S)
      → Apart (paths_of files)
      → restore_snapshot x files st ≡ (ok tt, st')
      → Tells st'.files files
  unfolding restore_snapshot
  restore_snapshot-Tells [] st st' a e = tt
  restore_snapshot-Tells (file ∷ files) st st' (a, as') e =
      let (done, first, rest) =
        >>-eq-ok (restore_file x file) (restore_snapshot x files) st st' e in
      let st1 = (restore_file x file st).1 in
      (
        ap seen (
            ap (λ m. m.1.files file.path) (sym rest)
            ∙ restore_snapshot-other files st1 file.path a
            ∙ restore_file-here file st first),
        restore_snapshot-Tells files st1 st' as' rest,
      )

  found_file-told :
      (path : Text) (file : Option File) → seen file ≡ seen (told (found_file x path file))
  unfolding found_file
  found_file-told path none = refl
  found_file-told path (some file) =
      ap (λ m. some (record { body = file.body; mode = m })) (permissions_idem file.mode)

  found_file-path : (path : Text) (file : Option File) → (found_file x path file).path ≡ path
  unfolding found_file
  found_file-path path none = refl
  found_file-path path (some file) = refl

  stat_file-found :
      (path : Text) (st : Installed S) (file : StagedFile)
      → (stat_file x path st).0 ≡ ok file
      → file ≡ found_file x path (st.files path)
  unfolding stat_file
  stat_file-found path st file e =
      elim (x.read path st.rest).0
          as (λ o.
            elim o as (λ o. Result StagedFile) [
              | some f ↦ err f
              | none ↦ ok (found_file x path (st.files path))
            ]
              ≡ ok file
            → file ≡ found_file x path (st.files path)) [
              | some f ↦ λ e. absurd (cc)
              | none ↦ λ e. sym (ok-injective _ _ e)
            ]
        e

  -- A snapshot tells of the files.
  pub take_snapshot-Tells :
      (paths : List Text) (st : Installed S) (files : List StagedFile)
      → (take_snapshot x paths st).0 ≡ ok files
      → Tells st.files files × (paths_of files ≡ paths)
  unfolding take_snapshot pure stat_file
  take_snapshot-Tells [] st files e = go files (ok-injective _ _ e)
    where
      go : (files : List StagedFile) → [] ≡ files → Tells st.files files × (paths_of files ≡ [])
      go [] e = (tt, refl)
      go (f ∷ fs) e = absurd (cc)
  take_snapshot-Tells (path ∷ paths) st files e =
      let m = take_snapshot x (path ∷ paths) st in
      let (file, found, rest) = >>=-eq-ok (stat_file x path) _ st m.1 (ap (λ r. (r, m.1)) e) in
      let st1 = (stat_file x path st).1 in
      let (fs, more, last) = >>=-eq-ok (take_snapshot x paths) _ st1 m.1 rest in
      let (tells, same) = take_snapshot-Tells paths st1 fs more in
      let here = stat_file-found path st file found in
      subst (λ fs. Tells st.files fs × (paths_of fs ≡ path ∷ paths))
        (ok-injective _ _ (ap (λ p. p.0) last))
        (
          (
            ap (λ p. seen (st.files p))
                  (ap (λ f. f.path) here ∙ found_file-path path (st.files path))
                ∙ found_file-told path (st.files path)
                ∙ ap (λ f. seen (told f)) (sym here),
            tells,
          ),
          ap (λ f. f.path ∷ paths_of fs) here
              ∙ ap (λ p. p ∷ paths_of fs) (found_file-path path (st.files path))
              ∙ ap (λ ps. path ∷ ps) same,
        )
