-- ===== src/Api/Backup.antt =====
-- server/api/backup.go
use nonprofit_ledger.Prelude.{
  ℕ, String, true, not, find, length, select, if◌then◌else◌, Option, none, some, List, ◌==◌,
}
use mathlib.Core.List.{reverse}
use nonprofit_ledger.Schema.{BackupRow}
use nonprofit_ledger.Disk.{DirEntry, Listing, no_such_dir, unreadable, listed}
use nonprofit_ledger.Exec.{Result, ok, err, query}
use nonprofit_ledger.Auth.Session.{SessionManager}
use nonprofit_ledger.Auth.Middleware.{Web, Handler}
use nonprofit_ledger.Api.Http.{Response, reply, reply_error, backup}

-- SELECT ... ORDER BY id DESC LIMIT 1
abbrev pub newest : List BackupRow → Option BackupRow
newest rows = find (λ (r : BackupRow). true) (reverse rows)

abbrev pub newest_success : List BackupRow → Option BackupRow
newest_success rows = find (λ (r : BackupRow). r.status == "success") (reverse rows)

abbrev pub unless_blank : Option String → Option String
unless_blank none = none
unless_blank (some e) = if e == "" then none else some e

abbrev pub status_of : Option BackupRow → Option String
status_of none = none
status_of (some r) = some r.status

abbrev pub error_of : Option BackupRow → Option String
error_of none = none
error_of (some r) = unless_blank r.error

abbrev pub started_of : Option BackupRow → Option String
started_of none = none
started_of (some r) = some r.started_at

abbrev pub count_files : List DirEntry → ℕ
count_files entries = length (select (λ (e : DirEntry). not e.is_dir) entries)

abbrev pub with_listing : Option BackupRow → Option BackupRow → Listing → Response
with_listing last success unreadable = reply_error 500 "internal error"
with_listing last success no_such_dir = reply 200 (
    backup (record {
      last_success_at = started_of success;
      last_status = status_of last;
      last_error = error_of last;
      retained_snapshot_count = 0;
    }))
with_listing last success (listed entries) = reply 200 (
    backup (record {
      last_success_at = started_of success;
      last_status = status_of last;
      last_error = error_of last;
      retained_snapshot_count = count_files entries;
    }))

module _ (sm : SessionManager) where
  abbrev pub after_success :
      Option BackupRow → Listing → Result (Option BackupRow) → Web sm → Response × Web sm
  after_success last listing (err e) w = (reply_error 500 "internal error", w)
  after_success last listing (ok success) w = (with_listing last success listing, w)

  abbrev pub after_last : Listing → Result (Option BackupRow) → Web sm → Response × Web sm
  after_last listing (err e) w = (reply_error 500 "internal error", w)
  after_last listing (ok last) w =
      let (r, state) = query (λ db. newest_success db.backup_runs) w.state in
      after_success last listing r (record w { state = state })

  -- Over what `os.ReadDir` finds in the backup directory.
  unfoldable pub backup_status_handler : Listing → Handler sm Response
  unfolding query
  backup_status_handler listing cu w =
      let (r, state) = query (λ db. newest db.backup_runs) w.state in
      after_last listing r (record w { state = state })
