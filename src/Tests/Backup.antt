-- ===== src/Tests/Backup.antt =====
-- Runs of the backup on a small disk.
use nonprofit_ledger.Prelude.{
  ℕ, String, ◌≡◌, refl, ◌≤◌, true, false, All, length, none, some, [], ◌∷◌, ◌++◌, arith,
}
use nonprofit_ledger.Prelude.Text.{text_le}
use nonprofit_ledger.Prelude.Sort.{insert, sort, take, drop}
use nonprofit_ledger.Schema.{Db, empty}
use nonprofit_ledger.Exec.{ok, Error, statement}
use nonprofit_ledger.Database.{Sqlite, open_db}
use nonprofit_ledger.Disk.{
  FilePath, file, Entry, Disk, Host, quiet, read_at, ◌>>=◌, mkdir_all, remove, stat_size, os_call,
}
use nonprofit_ledger.Backup.{
  Clock, is_snapshot, snapshot_names, to_delete, remove_all, rotate, snapshot_path, vacuum_into,
  snapshot, run_scheduled,
}
use nonprofit_ledger.Backup.Restore.{copy_file, check_integrity, restore}
use nonprofit_ledger.Backup.Rotate.{without, snapshots, surplus}
use nonprofit_ledger.Backup.Retention.{IsRotated, rotate-IsRotated, rotate_retains}
use nonprofit_ledger.Backup.Roundtrip.{restore-snapshot, restore_empties}
use nonprofit_ledger.Backup.Stamps.{Time, run_scheduled_later}
use nonprofit_ledger.Tests.{conn, office}

-- A database that knows the office only.
abbrev sample_sqlite : Sqlite
sample_sqlite = record {
  image = λ db. 1 ∷ 2 ∷ [];
  load = λ p d. some office;
  wal_mode = λ p d. d;
  integrity = λ p d. "ok";
}

abbrev pub text : Error → String
text e = "failed"

abbrev in_backups : String → FilePath
in_backups n = record { dir = "backups"; name = n }

abbrev held : String → Entry
held n = record { path = in_backups n; node = file (7 ∷ []) }

-- Three snapshots out of order, and a file that is none.
abbrev disk : Disk
disk = record {
  folders = "backups" ∷ [];
  entries =
      held "ledger-20260103-000000.db"
      ∷ held "notes.txt"
      ∷ held "ledger-20260101-000000.db"
      ∷ held "ledger-20260102-000000.db"
      ∷ [];
}

abbrev pub host : Host
host = record { state = record { db = office; faults = [] }; disk = disk }

abbrev rotated : Host
rotated = record host {
  disk = record disk { entries = held "ledger-20260103-000000.db" ∷ held "notes.txt" ∷ [] };
}

rotate-host : rotate "backups" 1 host ≡ (ok tt, rotated)
unfolding rotate is_snapshot remove_all remove os_call ◌>>=◌ to_delete sort insert text_le
rotate-host = refl

-- The driver fails the second deletion.
rotate-IsRotated_example : IsRotated "backups" 1 disk (
    rotate "backups" 1
      (record host { state = record { db = office; faults = false ∷ false ∷ true ∷ [] } }))
rotate-IsRotated_example =
    rotate-IsRotated "backups" 1
      (record host { state = record { db = office; faults = false ∷ false ∷ true ∷ [] } })

rotate_retains_example :
    (snapshots "backups" rotated.disk ≡ drop (surplus "backups" 1 disk) (snapshots "backups" disk))
    × (length (snapshots "backups" rotated.disk) ≤ 1)
    × All
        (λ a. All (λ b. text_le a b ≡ true) (snapshots "backups" rotated.disk))
        (take (surplus "backups" 1 disk) (snapshots "backups" disk))
    × (rotated.disk
        ≡ without "backups" (take (surplus "backups" 1 disk) (snapshots "backups" disk)) disk)
unfolding snapshot_names is_snapshot sort insert text_le
rotate_retains_example = rotate_retains "backups" 1 host refl (refl, (refl, (refl, tt))) rotate-host

abbrev pub clock : Clock
clock = record {
  stamp = "20260104-000000";
  started_at = "2026-01-04T00:00:00Z";
  finished_at = "2026-01-04T00:00:01Z";
}

abbrev after_run : Host
after_run = record {
  state = record {
    db = record office {
      backup_runs =
          record {
            id = 1;
            started_at = "2026-01-04T00:00:00Z";
            finished_at = "2026-01-04T00:00:01Z";
            status = "success";
            file_path = some "backups/ledger-20260104-000000.db";
            size_bytes = some 2;
            error = none;
          }
          ∷ [];
    };
    faults = [];
  };
  disk = record {
    folders = "backups" ∷ [];
    entries =
        held "ledger-20260103-000000.db"
        ∷ held "notes.txt"
        ∷ record { path = in_backups "ledger-20260104-000000.db"; node = file (1 ∷ 2 ∷ []) }
        ∷ [];
  };
}

run-host : run_scheduled conn text sample_sqlite "backups" 2 clock host ≡ (ok tt, after_run)
unfolding run_scheduled snapshot mkdir_all vacuum_into rotate is_snapshot remove_all remove os_call
    stat_size statement ◌>>=◌ to_delete sort insert text_le
run-host = refl

-- Midnight of a day in January.
abbrev midnight : ℕ → Time
midnight day = record { year = 2026; month = 1; day = day; hour = 0; minute = 0; second = 0 }

run_scheduled_later_example :
    read_at (snapshot_path "backups" clock) after_run.disk ≡ some (1 ∷ 2 ∷ [])
unfolding snapshot_names is_snapshot
run_scheduled_later_example =
    run_scheduled_later conn text sample_sqlite "backups" 2 clock (midnight 4) host (omega arith)
      refl
      (
        record { time = midnight 3; written = refl; earlier = refl },
        (
          record { time = midnight 1; written = refl; earlier = refl },
          (record { time = midnight 2; written = refl; earlier = refl }, tt),
        ),
      )
      run-host

abbrev with_snapshot : Host
with_snapshot = record {
  state = record { db = office; faults = [] };
  disk = record {
    folders = "backups" ∷ [];
    entries = disk.entries ++ record { path = in_backups "copy.db"; node = file (1 ∷ 2 ∷ []) } ∷ [];
  };
}

snapshot-host : snapshot sample_sqlite (in_backups "copy.db") host ≡ (ok tt, with_snapshot)
unfolding snapshot mkdir_all vacuum_into os_call ◌>>=◌
snapshot-host = refl

restore-snapshot_example :
    (after : Host) × (restore sample_sqlite
        (in_backups "copy.db")
        (in_backups "new.db")
        (quiet empty with_snapshot.disk)
      ≡ (ok office, after))
    × (read_at (in_backups "copy.db") after.disk ≡ some (1 ∷ 2 ∷ []))
restore-snapshot_example =
    restore-snapshot sample_sqlite office (in_backups "new.db")
      (record {
        load-image = λ d held alone. refl;
        integrity-image = λ d held alone. refl;
        wal_mode-outside = λ q d outside. refl;
      })
      (in_backups "copy.db") host refl snapshot-host
      (record { main = refl; wal = refl; shm = refl; journal = refl }) (refl, refl) refl empty

restore_empties_example :
    (emptied : Host) × (copy_file
        (in_backups "copy.db")
        (in_backups "copy.db")
        (quiet office with_snapshot.disk)
      ≡ (ok tt, emptied))
    × (read_at (in_backups "copy.db") emptied.disk ≡ some [])
    × (read_at (in_backups "notes.txt") emptied.disk ≡ some (7 ∷ []))
    × (restore sample_sqlite
          (in_backups "copy.db")
          (in_backups "copy.db")
          (quiet office with_snapshot.disk)
        ≡ (open_db sample_sqlite (in_backups "copy.db") >>= λ (db : Db).
              check_integrity sample_sqlite (in_backups "copy.db") db)
            emptied)
restore_empties_example =
    restore_empties sample_sqlite (in_backups "copy.db") (1 ∷ 2 ∷ []) office with_snapshot.disk refl
      refl (in_backups "notes.txt") refl
