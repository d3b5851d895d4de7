-- ===== src/Ledger/Frame/Startup.antt =====
-- The frame of the first admin and of the scheduled backup, which cmd/server/main.go starts.
use nonprofit_ledger.Prelude.{
  ℕ, String, sym, subst, inl, inr, Bool, true, false, if◌then◌else◌, none, ltb, length, Option,
  List, [], ◌∷◌, ◌++◌,
}
use nonprofit_ledger.Schema.{Db, BackupRow}
use nonprofit_ledger.Exec.{Conn, Result, Error, Exec, statement, query, pure}
use nonprofit_ledger.Exec.Keeps.{Keeps, statement-Keeps, query-Keeps}
use nonprofit_ledger.Users.{insert_user}
use nonprofit_ledger.Auth.Password.{Crypto, hash_password}
use nonprofit_ledger.Database.{Sqlite}
use nonprofit_ledger.Disk.{Host}
use nonprofit_ledger.Backup.{Clock, run_scheduled}
use nonprofit_ledger.Backup.Runs.{run_scheduled-IsRecorded}
use nonprofit_ledger.Server.{
  generate_one_time_password, or_error, create_first_admin, bootstrap_first_admin,
}
use nonprofit_ledger.Ledger.Frame.{Of, bind-Kept}

module _ (R : Db → Db → Type 0) (same : (db : Db) → R db db)
    (both : (before middle after : Db) → R before middle → R middle after → R before after) where
  or_error-Kept : {A : Type 0} (r : Result A) → Keeps R same both (or_error r)
  or_error-Kept r s = same s.db

  branch-Kept :
      {A : Type 0} (b : Bool) (m k : Exec A)
      → Keeps R same both m
      → Keeps R same both k
      → Keeps R same both (if b then m else k)
  branch-Kept true m k p q = p
  branch-Kept false m k p q = q

  module _ (conn : Conn) (crypto : Crypto) (random salt : Option (List ℕ))
      (kept : (hash : String) → Of R (insert_user conn "admin" hash "admin" 1 1)) where
    create_first_admin-Keeps : Keeps R same both (create_first_admin conn crypto random salt)
    unfolding create_first_admin
    create_first_admin-Keeps =
        bind-Kept R same both (or_error (generate_one_time_password 20 random)) _
          (or_error-Kept (generate_one_time_password 20 random))
          (λ password.
            bind-Kept R same both (or_error (hash_password crypto salt password)) _
              (or_error-Kept (hash_password crypto salt password))
              (λ hash.
                bind-Kept R same both (statement (insert_user conn "admin" hash "admin" 1 1)) _
                  (statement-Keeps R same both _ (kept hash)) (λ id s. same s.db)))

    pub bootstrap_first_admin-Keeps :
        Keeps R same both (bootstrap_first_admin conn crypto random salt)
    unfolding bootstrap_first_admin
    bootstrap_first_admin-Keeps =
        bind-Kept R same both (query (λ db. length db.users)) _ (query-Keeps R same both _)
          (λ count.
            branch-Kept (ltb 0 count) (pure none) (create_first_admin conn crypto random salt)
              (λ s. same s.db) create_first_admin-Keeps)

  -- One run of the scheduler, whatever fails in it.
  pub run_scheduled-Keeps :
      ((before : Db) (row : BackupRow)
        → R before (record before { backup_runs = before.backup_runs ++ row ∷ [] }))
      → (conn : Conn) (text : Error → String) (sqlite : Sqlite) (dir : String) (keep_n : ℕ)
        (clock : Clock) (h : Host)
      → R h.state.db (run_scheduled conn text sqlite dir keep_n clock h).1.state.db
  run_scheduled-Keeps kept conn text sqlite dir keep_n clock h =
      elim (run_scheduled-IsRecorded conn text sqlite dir keep_n clock h) [
        | inl (calm, recorded) ↦
            subst (R h.state.db) (sym recorded.db) (kept h.state.db recorded.row)
        | inr (due, failed, left) ↦ subst (R h.state.db) (sym left) (same h.state.db)
      ]
