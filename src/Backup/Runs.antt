-- ===== src/Backup/Runs.antt =====
-- A scheduled run leaves a row in backup_runs, however it ends.
use nonprofit_ledger.Prelude.{
  ℕ, ⊤, String, ◌≡◌, refl, ◌∙◌, subst, ap, ◌⊎◌, inl, inr, Bool, true, false, Bool-cases, List, [],
  ◌∷◌, ◌++◌, arith,
}
use nonprofit_ledger.Schema.{Db, BackupRow}
use nonprofit_ledger.Exec.{Conn, Result, ok, err, Error, sql, driver_error, statement, is_due}
use nonprofit_ledger.Database.{Sqlite}
use nonprofit_ledger.Disk.{
  stat_size, Host, FilePath, Listing, listed, no_such_dir, unreadable, ◌>>=◌, next_call,
}
use nonprofit_ledger.Backup.{
  Clock, snapshot_names, to_delete, remove_all, rotate_listed, rotate, snapshot, snapshot_path,
  rotate_after, size_after, run_status, error_text, backup_row, record_run, run_scheduled,
}
use nonprofit_ledger.Backup.Rotate.{remove-cases, less}

abbrev db_of : Result ⊤ × Host → Db
db_of result = result.1.state.db

remove_all-db :
    (dir : String) (ns : List String) (h : Host) → db_of (remove_all dir ns h) ≡ h.state.db
unfolding remove_all ◌>>=◌
remove_all-db dir [] h = refl
remove_all-db dir (n ∷ ns) h = elim (remove-cases dir n h) [
  | inl failed ↦ rw failed refl
  | inr gone ↦ rw gone (remove_all-db dir ns (record (next_call h) { disk = less dir n h.disk }))
]

rotate_listed-db :
    (dir : String) (keep_n : ℕ) (l : Listing) (h : Host)
    → db_of (rotate_listed dir keep_n l h) ≡ h.state.db
rotate_listed-db dir keep_n no_such_dir h = refl
rotate_listed-db dir keep_n unreadable h = refl
rotate_listed-db dir keep_n (listed es) h =
    remove_all-db dir (to_delete keep_n (snapshot_names es)) h

rotate-db : (dir : String) (keep_n : ℕ) (h : Host) → db_of (rotate dir keep_n h) ≡ h.state.db
unfolding rotate
rotate-db dir keep_n h = rotate_listed-db dir keep_n _ (next_call h)

rotate_after-db :
    (snap : Result ⊤) (dir : String) (keep_n : ℕ) (h : Host)
    → db_of (rotate_after snap dir keep_n h) ≡ h.state.db
rotate_after-db (ok u) dir keep_n h = rotate-db dir keep_n h
rotate_after-db (err e) dir keep_n h = refl

size_after-db :
    (run : Result ⊤) (dest : FilePath) (h : Host) → (size_after run dest h).1.state.db ≡ h.state.db
unfolding stat_size
size_after-db (ok u) dest h = refl
size_after-db (err e) dest h = refl

snapshot-db :
    (sqlite : Sqlite) (dest : FilePath) (h : Host) → db_of (snapshot sqlite dest h) ≡ h.state.db
unfolding snapshot
snapshot-db sqlite dest h = ground arith

module _ (conn : Conn) (text : Error → String) where
  -- One row is added, which says what the run came to, and nothing else is changed.
  pub record IsRecorded (clock : Clock) (before : Db) (result : Result ⊤ × Host) : Type 0 where
    pub row : BackupRow
    pub db : db_of result ≡ record before { backup_runs = before.backup_runs ++ row ∷ [] }
    pub status : row.status ≡ run_status result.0
    pub error : row.error ≡ error_text text result.0
    pub started : row.started_at ≡ clock.started_at
    pub finished : row.finished_at ≡ clock.finished_at

  -- What the insert of the row comes to, by the faults that are due when it is issued.
  abbrev pub Ends : Clock → List Bool → Db → Result ⊤ × Host → Type 0
  Ends clock faults before result =
      ((is_due faults ≡ false) × IsRecorded clock before result)
      ⊎ ((is_due faults ≡ true) × (result.0 ≡ err (sql driver_error)) × (db_of result ≡ before))

  record_run-Ends :
      (clock : Clock) (dest : FilePath) (snap run : Result ⊤) (h : Host)
      → Ends clock
          (size_after run dest h).1.state.faults
          h.state.db
          (record_run conn text clock dest snap run h)
  unfolding statement
  record_run-Ends clock dest snap run h =
      let h' = (size_after run dest h).1 in
      let same = size_after-db run dest h in
      elim (Bool-cases (is_due h'.state.faults)) [
        | inl due ↦ inr (rw due (refl, refl, same))
        | inr calm ↦
            let row : BackupRow =
              backup_row conn text clock dest snap run (size_after run dest h).0 h'.state.db in
            inl (
              rw calm (
                refl,
                record {
                  row = row;
                  db =
                      ap (λ (db : Db). record db { backup_runs = db.backup_runs ++ row ∷ [] }) same;
                  status = refl;
                  error = refl;
                  started = refl;
                  finished = refl;
                },
              ))
      ]

  -- The faults that are to come once the snapshot has been taken, the old ones have been rotated, and
  -- the size has been asked for: where the row of the run is inserted.
  abbrev pub faults_at_insert : Sqlite → String → ℕ → Clock → Host → List Bool
  faults_at_insert sqlite dir keep_n clock h =
      let dest = snapshot_path dir clock in
      let (snap, h₁) = snapshot sqlite dest h in
      let (run, h₂) = rotate_after snap dir keep_n h₁ in (size_after run dest h₂).1.state.faults

  pub run_scheduled-IsRecorded :
      (sqlite : Sqlite) (dir : String) (keep_n : ℕ) (clock : Clock) (h : Host)
      → Ends clock
          (faults_at_insert sqlite dir keep_n clock h)
          h.state.db
          (run_scheduled conn text sqlite dir keep_n clock h)
  unfolding run_scheduled
  run_scheduled-IsRecorded sqlite dir keep_n clock h =
      let dest = snapshot_path dir clock in
      let (snap, h₁) = snapshot sqlite dest h in
      let (run, h₂) = rotate_after snap dir keep_n h₁ in
      let same = rotate_after-db snap dir keep_n h₁ ∙ snapshot-db sqlite dest h in
      subst
        (λ db.
          Ends clock (size_after run dest h₂).1.state.faults db
            (run_scheduled conn text sqlite dir keep_n clock h))
        same (record_run-Ends clock dest snap run h₂)
