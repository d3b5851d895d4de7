-- ===== src/Ledger/Period.antt =====
-- server/ledger/period.go
use nonprofit_ledger.Prelude.{ℕ, ⊤, String, Option, some}
use nonprofit_ledger.Schema.{Db}
use nonprofit_ledger.Exec.{Conn, Exec, Outcome, done, statement, query, transact, ◌>>=◌, ◌>>◌}
use nonprofit_ledger.Audit
use nonprofit_ledger.Ledger.Posting.{locked_date}

-- INSERT INTO accounting_periods ... ON CONFLICT(id) DO UPDATE: the row 1 has the new values.
abbrev pub upsert_period : String → ℕ → String → Db → Outcome ⊤
upsert_period through_date locked_by locked_at db = done tt (record db {
  period = some (record {
    locked_through_date = some through_date;
    locked_by = some locked_by;
    locked_at = some locked_at;
  });
})

module _ (conn : Conn) where
  unfoldable pub lock_period : String → ℕ → Exec ⊤
  unfolding statement transact Audit.write ◌>>=◌
  lock_period through_date locked_by = transact (do
    statement (upsert_period through_date locked_by conn.rfc3339_now)
    Audit.write conn locked_by "lock_period" "accounting_period" 1 through_date)

unfoldable pub get_locked_through_date : Exec (Option String)
unfolding query
get_locked_through_date = query (λ db. locked_date db.period)
