-- ===== src/Ledger/Posting/Atomic.antt =====
-- A posting that fails writes nothing, at whatever step it fails.
use nonprofit_ledger.Prelude.{◌≡◌, is_empty, inl, inr, Bool-cases, arith}
use nonprofit_ledger.Exec.{Conn, State, Error, err, ◌>>=◌}
use nonprofit_ledger.Exec.Inversion.{transact_atomic}
use nonprofit_ledger.Ledger.Entry.{NewEntry}
use nonprofit_ledger.Ledger.Posting.{balances, post_tx, post_journal_entry}

-- When `PostJournalEntry` returns an error, whether its own checks, a constraint or the driver
-- stopped it at any statement or at the commit, the tables are as they were before the call.
pub post_atomic :
    (conn : Conn) (e : NewEntry) (s : State) {x : Error} {t : State}
    → post_journal_entry conn e s ≡ (err x, t)
    → t.db ≡ s.db
unfolding post_journal_entry ◌>>=◌
post_atomic conn e s {x} {t} h = elim (Bool-cases (is_empty e.lines)) [
  | inl empty ↦ ground arith
  | inr filled ↦ elim (Bool-cases (balances e.lines)) [
    | inl balanced ↦ transact_atomic (post_tx conn e) s {e = x} {t = t} (ground arith)
    | inr unbalanced ↦ ground arith
  ]
]
