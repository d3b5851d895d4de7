-- ===== src/Backup/Restore.antt =====
-- server/backup/restore.go
use nonprofit_ledger.Prelude.{⊤, String, ◌==◌, if◌then◌else◌}
use nonprofit_ledger.Schema.{Db}
use nonprofit_ledger.Exec.{integrity_failed, fallible}
use nonprofit_ledger.Database.{Sqlite, open_db}
use nonprofit_ledger.Disk.{
  FilePath, Sys, raise, pure, on_db, ◌>>=◌, ◌>>◌, mkdir_all, open_file, create, copy, close,
}

unfoldable pub copy_file : FilePath → FilePath → Sys ⊤
unfolding mkdir_all open_file create copy close ◌>>=◌
copy_file src dst = do mkdir_all dst.dir; open_file src; create dst; copy src dst; close

module _ (sqlite : Sqlite) where
  abbrev pub require_ok : String → Db → Sys Db
  require_ok result db = if result == "ok" then pure db else raise integrity_failed

  -- PRAGMA integrity_check, and the test of its answer
  unfoldable pub check_integrity : FilePath → Db → Sys Db
  unfolding fallible ◌>>=◌
  check_integrity dest db =
      on_db (fallible tt) >>= λ u h. require_ok (sqlite.integrity dest h.disk) db h

  -- The tables of the connection that is returned.
  unfoldable pub restore : FilePath → FilePath → Sys Db
  unfolding copy_file open_db check_integrity ◌>>=◌
  restore snapshot_path dest_path = do
    copy_file snapshot_path dest_path
    db ← open_db sqlite dest_path
    check_integrity dest_path db
