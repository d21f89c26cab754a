-- ===== src/Staging/Files.antt =====
-- The installed files, and what staging does to them: `write_deployment` and `restore_snapshot` of
-- src/host/workload/transaction.rs, and the snapshot of src/host/workload/deployment.rs.
use komizo.Prelude.{
  ℕ, ◌%◌, true, false, Option, none, some, List, [], ◌∷◌, ◌++◌, if◌then◌else◌, Text, codes, text_eq,
}
use komizo.Prelude.Result.{Fault, Result, ok, err}
use komizo.Prelude.Exec.{Exec, pure, ◌>>=◌, ◌>>◌}
use komizo.Operation.Record.{Write, refused, unsynced, written}
use komizo.Reconciliation.Request.{StagedFile}

pub record File : Type 0 where
  pub body : List ℕ
  pub mode : ℕ

-- The file at each path.
abbrev pub Files : Type 0
Files = Text → Option File

unfoldable pub set : Text → Option File → Files → Files
set path file files other = if text_eq other path then file else files other

-- What happens to a file that is written, removed or read, as the machine decides.
pub record FileEffects (W : Type 0) : Type 0 where
  pub write : Text → W → Write × W
  pub remove : Text → W → Option Fault × W
  pub read : Text → W → Option Fault × W

-- Mode 0o600, which a file has until its own is set.
abbrev pub private : ℕ
private = 384

-- What a write leaves. One that fails after the rename leaves the body, with the private mode.
unfoldable pub after_write : Write → File → Files → Text → Result (Unit {0}) × Files
unfolding set
after_write (refused f) file files path = (err f, files)
after_write (unsynced f) file files path =
    (err f, set path (some (record { body = file.body; mode = private })) files)
after_write written file files path = (ok tt, set path (some file) files)

-- `files::remove`, for which a file that is not there is removed.
unfoldable pub after_remove : Option Fault → Files → Text → Result (Unit {0}) × Files
unfolding set
after_remove (some f) files path = (err f, files)
after_remove none files path = (ok tt, set path none files)

pub record Installed (S : Type 0) : Type 0 where
  pub files : Files
  pub rest : S

-- `mode & 0o777`
abbrev pub permissions : ℕ → ℕ
permissions mode = mode % 512

module _ {S : Type 0} (x : FileEffects S) where
  -- `write_deployment`
  unfoldable pub write_file : Text → List ℕ → ℕ → Exec (Installed S) (Unit {0})
  unfolding after_write
  write_file path body mode st =
      let (disk, s) = x.write path st.rest in
      let (r, files) = after_write disk (record { body = body; mode = mode }) st.files path in
      (r, record { files = files; rest = s })

  unfoldable pub remove_file : Text → Exec (Installed S) (Unit {0})
  unfolding after_remove
  remove_file path st =
      let (failure, s) = x.remove path st.rest in
      let (r, files) = after_remove failure st.files path in (r, record { files = files; rest = s })

  -- One file of the snapshot, as it is found.
  unfoldable pub found_file : Text → Option File → StagedFile
  found_file path none = record { path = path; body = []; exists = false; mode = 0 }
  found_file path (some file) = record {
    path = path;
    body = file.body;
    exists = true;
    mode = permissions file.mode;
  }

  unfoldable pub stat_file : Text → Exec (Installed S) StagedFile
  unfolding found_file
  stat_file path st =
      let (failure, s) = x.read path st.rest in
      (
        elim failure [ some f ↦ err f | none ↦ ok (found_file path (st.files path)) ],
        record st { rest = s },
      )

  -- The loop over the paths.
  unfoldable pub take_snapshot : List Text → Exec (Installed S) (List StagedFile)
  unfolding stat_file
  take_snapshot [] = pure []
  take_snapshot (path ∷ paths) = do
    file ← stat_file path
    files ← take_snapshot paths
    pure (file ∷ files)

  -- `restore_snapshot`
  unfoldable pub restore_file : StagedFile → Exec (Installed S) (Unit {0})
  unfolding write_file remove_file
  restore_file file =
      if file.exists then write_file file.path file.body file.mode else remove_file file.path

  unfoldable pub restore_snapshot : List StagedFile → Exec (Installed S) (Unit {0})
  unfolding restore_file
  restore_snapshot [] = pure tt
  restore_snapshot (file ∷ files) = let rest = restore_snapshot files in restore_file file >> rest

  -- The previous files: the copies next to three of the four.
  unfoldable pub keep_previous : List StagedFile → Exec (Installed S) (Unit {0})
  unfolding write_file remove_file
  keep_previous [] = pure tt
  keep_previous (file ∷ files) =
      let rest = keep_previous files in
      (if file.exists
        then write_file (file.path ++ codes ".prev") file.body file.mode
        else remove_file (file.path ++ codes ".prev"))
      >> rest
