-- ===== src/Backup.antt =====
-- server/backup/backup.go
pub mod Beside
pub mod Restore
pub mod Rotate
pub mod Retention
pub mod Runs
pub mod Roundtrip
pub mod Newest
pub mod Stamps
use Prim.Native.String
use nonprofit_ledger.Prelude.{
  ℕ, ⊤, String, Bool, true, false, ◌&&◌, ◌||◌, ◌-◌, not, find, select, leb, length, is_empty,
  if◌then◌else◌, Option, none, some, List, [], ◌∷◌, ◌++◌, ◌==◌, map,
}
use nonprofit_ledger.Prelude.Text.{codes, after_prefix}
use nonprofit_ledger.Prelude.Sort.{sort, take}
use nonprofit_ledger.Schema.{Db, BackupRow, backup_ids}
use nonprofit_ledger.Exec.{
  Conn, State, Exec, Result, ok, err, Error, sql, driver_error, file_error, Outcome, done,
  statement, is_due,
}
use nonprofit_ledger.Database.{Sqlite}
use nonprofit_ledger.Disk.{
  FilePath, text_of, Disk, Host, Sys, pure, raise, ◌>>=◌, ◌>>◌, next_call, read_at, is_dir_at,
  put_file, mkdir_all, remove, DirEntry, Listing, no_such_dir, unreadable, listed, read_dir,
  stat_size,
}

abbrev pub snapshot_prefix : String
snapshot_prefix = "ledger-"

abbrev pub snapshot_ext : String
snapshot_ext = ".db"

-- VACUUM INTO refuses a file that holds something, and a directory.
abbrev pub is_occupied : Option (List ℕ) → Bool
is_occupied none = false
is_occupied (some bytes) = not (is_empty bytes)

-- `len(n) > len(snapshotPrefix) && n[:len(snapshotPrefix)] == snapshotPrefix`
abbrev pub longer : Option (List ℕ) → Bool
longer none = false
longer (some rest) = not (is_empty rest)

unfoldable pub is_snapshot : String → Bool
is_snapshot n = longer (after_prefix (codes snapshot_prefix) (codes n))

-- The loop that collects the names.
unfoldable pub snapshot_names : List DirEntry → List String
unfolding is_snapshot
snapshot_names [] = []
snapshot_names (e ∷ es) =
    if not e.is_dir && is_snapshot e.name then e.name ∷ snapshot_names es else snapshot_names es

-- The loop that deletes.
unfoldable pub remove_all : String → List String → Sys ⊤
unfolding remove ◌>>=◌
remove_all dir [] = pure tt
remove_all dir (n ∷ ns) = do remove (record { dir = dir; name = n }); remove_all dir ns

-- What is deleted, oldest first: all but the `keep_n` last names.
unfoldable pub to_delete : ℕ → List String → List String
to_delete keep_n names =
    let sorted = sort names in
    if leb (length sorted) keep_n then [] else take (length sorted - keep_n) sorted

abbrev pub rotate_listed : String → ℕ → Listing → Sys ⊤
rotate_listed dir keep_n no_such_dir = pure tt
rotate_listed dir keep_n unreadable = raise file_error
rotate_listed dir keep_n (listed es) = remove_all dir (to_delete keep_n (snapshot_names es))

-- The number to keep is not negative.
unfoldable pub rotate : String → ℕ → Sys ⊤
unfolding read_dir snapshot_names to_delete remove_all
rotate dir keep_n h = let (listing, h') = read_dir dir h in rotate_listed dir keep_n listing h'

-- The three times that RunScheduled reads off the clock: for the file's name, and as RFC 3339.
pub record Clock : Type 0 where
  pub stamp : String
  pub started_at : String
  pub finished_at : String

module _ (sqlite : Sqlite) where
  abbrev pub vacuum_if : Bool → FilePath → Sys ⊤
  vacuum_if true dest h = (err (sql driver_error), h)
  vacuum_if false dest h =
      if is_occupied (read_at dest h.disk) || is_dir_at dest h.disk
      then (err (sql driver_error), h)
      else (ok tt, record h { disk = put_file dest (sqlite.image h.state.db) h.disk })

  -- VACUUM INTO ?, which also fails where the 30 seconds pass
  unfoldable pub vacuum_into : FilePath → Sys ⊤
  vacuum_into dest h = vacuum_if (is_due h.state.faults) dest (next_call h)

  unfoldable pub snapshot : FilePath → Sys ⊤
  unfolding mkdir_all vacuum_into ◌>>=◌
  snapshot dest = do mkdir_all dest.dir; vacuum_into dest

abbrev pub snapshot_path : String → Clock → FilePath
snapshot_path dir clock = record {
  dir = dir;
  name = String.◌++◌ snapshot_prefix (String.◌++◌ clock.stamp snapshot_ext);
}

-- `if snapErr == nil { rotateErr = Rotate(...) }`, and then `runErr`
abbrev pub rotate_after : Result ⊤ → String → ℕ → Sys ⊤
rotate_after (err e) dir keep_n h = (err e, h)
rotate_after (ok u) dir keep_n h = rotate dir keep_n h

abbrev pub file_path : Result ⊤ → FilePath → Option String
file_path (ok u) dest = some (text_of dest)
file_path (err e) dest = none

abbrev pub run_status : Result ⊤ → String
run_status (ok u) = "success"
run_status (err e) = "failed"

-- `os.Stat` is called after success only.
abbrev pub size_after : Result ⊤ → FilePath → Host → Option ℕ × Host
size_after (err e) dest h = (none, h)
size_after (ok u) dest h = stat_size dest h

-- `text` is what `Error()` says of an error.
abbrev pub error_text : (Error → String) → Result ⊤ → Option String
error_text text (ok u) = none
error_text text (err e) = some (text e)

module _ (conn : Conn) (text : Error → String) where
  abbrev pub backup_row : Clock → FilePath → Result ⊤ → Result ⊤ → Option ℕ → Db → BackupRow
  backup_row clock dest snap run size db = record {
    id = conn.row_id (backup_ids db);
    started_at = clock.started_at;
    finished_at = clock.finished_at;
    status = run_status run;
    file_path = file_path snap dest;
    size_bytes = size;
    error = error_text text run;
  }

  -- INSERT INTO backup_runs
  abbrev pub insert_run : Clock → FilePath → Result ⊤ → Result ⊤ → Option ℕ → Db → Outcome ⊤
  insert_run clock dest snap run size db =
      done tt
        (record db { backup_runs = db.backup_runs ++ backup_row clock dest snap run size db ∷ [] })

  abbrev pub end_run : Result ⊤ → Result ⊤ → Result ⊤
  end_run (err e) run = err e
  end_run (ok u) run = run

  -- The row of the run, and the error that is returned.
  abbrev pub record_run : Clock → FilePath → Result ⊤ → Result ⊤ → Sys ⊤
  record_run clock dest snap run h =
      let (size, h') = size_after run dest h in
      let (r, s) = statement (insert_run clock dest snap run size) h'.state in
      (end_run r run, record h' { state = s })

  -- One cycle, with the times that the clock gives.
  unfoldable pub run_scheduled : Sqlite → String → ℕ → Clock → Sys ⊤
  unfolding snapshot rotate stat_size statement
  run_scheduled sqlite dir keep_n clock h =
      let dest = snapshot_path dir clock in
      let (snap, h₁) = snapshot sqlite dest h in
      let (run, h₂) = rotate_after snap dir keep_n h₁ in record_run clock dest snap run h₂
