-- ===== src/Server/Scheduler.antt =====
-- What the runs of the scheduler of cmd/server/main.go leave in the tables.
use nonprofit_ledger.Prelude.{
  ℕ, String, ◌≡◌, ◌≤◌, sym, ◌∙◌, ap, inl, inr, length, List, [], ◌∷◌, ◌++◌, append-nil,
  append_assoc, length-append, arith,
}
use nonprofit_ledger.Schema.{Db, BackupRow}
use nonprofit_ledger.Exec.{Conn, Error}
use nonprofit_ledger.Database.{Sqlite}
use nonprofit_ledger.Disk.{Host}
use nonprofit_ledger.Backup.{Clock}
use nonprofit_ledger.Backup.Runs.{run_scheduled-IsRecorded}
use nonprofit_ledger.Server.{run_once, backup_scheduler}

-- The tables but for rows that are added to backup_runs, at most one for each run.
record IsLogged (runs : List Clock) (before after : Db) : Type 0 where
  rows : List BackupRow
  at_most : length rows ≤ length runs
  db : after ≡ record before { backup_runs = before.backup_runs ++ rows }

module _ (conn : Conn) (text : Error → String) (sqlite : Sqlite) (dir : String) (retain : ℕ) where
  run_once-IsLogged :
      (clock : Clock) (h : Host)
      → IsLogged (clock ∷ []) h.state.db (run_once conn text sqlite dir retain clock h).state.db
  unfolding run_once
  run_once-IsLogged clock h = elim (run_scheduled-IsRecorded conn text sqlite dir retain clock h) [
    | inl (calm, recorded) ↦ record {
      rows = recorded.row ∷ [];
      at_most = omega arith;
      db = recorded.db;
    }
    | inr (due, failed, kept) ↦ record {
      rows = [];
      at_most = omega arith;
      db =
          kept
          ∙ ap (λ rows. record h.state.db { backup_runs = rows })
              (sym (append-nil h.state.db.backup_runs));
    }
  ]

  -- The runs of the scheduler, whatever fails in them, change nothing in the tables but for rows at the
  -- end of backup_runs, at most one for each run.
  backup_scheduler-IsLogged :
      (runs : List Clock) (h : Host)
      → IsLogged runs h.state.db (backup_scheduler conn text sqlite dir retain runs h).state.db
  unfolding backup_scheduler
  backup_scheduler-IsLogged [] h = record {
    rows = [];
    at_most = omega arith;
    db =
        ap (λ rows. record h.state.db { backup_runs = rows })
          (sym (append-nil h.state.db.backup_runs));
  }
  backup_scheduler-IsLogged (clock ∷ runs) h =
      let first = run_once-IsLogged clock h in
      let rest = backup_scheduler-IsLogged runs (run_once conn text sqlite dir retain clock h) in
      record {
        rows = first.rows ++ rest.rows;
        at_most = ground (arith, length-append first.rows rest.rows, first.at_most, rest.at_most);
        db =
            rest.db
            ∙ ap (λ (db : Db). record db { backup_runs = db.backup_runs ++ rest.rows }) first.db
            ∙ ap (λ rows. record h.state.db { backup_runs = rows })
                (append_assoc h.state.db.backup_runs first.rows rest.rows);
      }
