-- ===== src/Database.antt =====
-- server/db/sqlite.go, over the driver (modernc.org/sqlite) and golang-migrate as parameters.
use nonprofit_ledger.Prelude.{ℕ, ⊤, String, Option, none, some, List}
use nonprofit_ledger.Schema.{Db}
use nonprofit_ledger.Exec.{State, Exec, Result, ok, err, Error, sql, driver_error, fallible, is_due}
use nonprofit_ledger.Exec
use nonprofit_ledger.Disk.{FilePath, Disk, Sys, on_db, ◌>>=◌, ◌>>◌}

-- What SQLite makes of a database: the bytes of a file that VACUUM INTO writes, the tables that a
-- file and the log beside it hold, the disk that PRAGMA journal_mode = WAL leaves (the file, and what
-- stands beside it), and what PRAGMA integrity_check says.
pub record Sqlite : Type 0 where
  pub image : Db → List ℕ
  pub load : FilePath → Disk → Option Db
  pub wal_mode : FilePath → Disk → Disk
  pub integrity : FilePath → Disk → String

abbrev pub in_wal_mode : Sqlite → FilePath → Option Db → Sys Db
in_wal_mode sqlite path none h = (err (sql driver_error), h)
in_wal_mode sqlite path (some db) h = (ok db, record h { disk = sqlite.wal_mode path h.disk })

-- PRAGMA journal_mode = WAL, the first statement that reads the file, or makes it.
unfoldable pub enter_wal : Sqlite → FilePath → Sys Db
unfolding fallible ◌>>=◌
enter_wal sqlite path =
    on_db (fallible tt) >>= λ u h. in_wal_mode sqlite path (sqlite.load path h.disk) h

-- `sql.Open`, and the two PRAGMAs.
unfoldable pub open_db : Sqlite → FilePath → Sys Db
unfolding enter_wal fallible ◌>>=◌
open_db sqlite path = do on_db (fallible tt); on_db (fallible tt); enter_wal sqlite path

-- What `m.Up` comes to on the migrations of a directory. The migrations before one that fails have been
-- applied.
pub data Up : Type 0 where
  no_change : Up
  failed applied : Db → Up

abbrev pub end_up : Up → Exec ⊤
end_up no_change s = (ok tt, s)
end_up (failed db) s = (err (sql driver_error), record s { db = db })
end_up (applied db) s = (ok tt, record s { db = db })

abbrev pub up : (String → Db → Up) → String → Exec ⊤
up migrator dir s = end_up (migrator dir s.db) s

-- The driver of the migrations, the migrator, and the run.
unfoldable pub run_migrations : (String → Db → Up) → String → Exec ⊤
unfolding fallible Exec.◌>>=◌
run_migrations migrator dir =
    Exec.◌>>=◌ (fallible tt) (λ driver. Exec.◌>>=◌ (fallible tt) (λ m. up migrator dir))
