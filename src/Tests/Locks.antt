-- ===== src/Tests/Locks.antt =====
-- A lock of the office, and a reversal after it.
use nonprofit_ledger.Prelude.{◌≡◌, refl, [], ◌∷◌, ◌++◌}
use nonprofit_ledger.Prelude.Text.{text_le}
use nonprofit_ledger.Schema.{Db, entry_ids}
use nonprofit_ledger.Exec.{State, ok, statement, transact, ◌>>=◌}
use nonprofit_ledger.Audit
use nonprofit_ledger.Ledger.Entry.{line_checks}
use nonprofit_ledger.Ledger.Posting.{post_journal_entry}
use nonprofit_ledger.Ledger.Posting.Accepts.{calm}
use nonprofit_ledger.Ledger.Posting.Effect.{posting}
use nonprofit_ledger.Ledger.Period.{lock_period}
use nonprofit_ledger.Ledger.Reversal.{reverse_journal_entry}
use nonprofit_ledger.Ledger.Reversal.Accepts.{IsReversible}
use nonprofit_ledger.Ledger.Reversal.Locked.{lock_spares_reversals}
use nonprofit_ledger.Ledger.Journal.{JournalEntry, journal, IsSound}
use nonprofit_ledger.Ledger.Journal.Written.{numbered}
use nonprofit_ledger.Ledger.Journal.Reversed.{reversal_of}
use nonprofit_ledger.Ledger.Books.History.{here}
use nonprofit_ledger.Ledger.Books.Locks.{IsRejected}
use nonprofit_ledger.Tests.{conn, donation}
use nonprofit_ledger.Tests.Ledger.{posted}

-- The books of the office with the donation, locked through June.
abbrev closed : State
closed = (lock_period conn "2024-06-30" 1 posted).1

lock-posted : lock_period conn "2024-06-30" 1 posted ≡ (ok tt, closed)
unfolding lock_period Audit.write Audit.insert_audit statement transact ◌>>=◌
lock-posted = refl

abbrev donated_entry : JournalEntry
donated_entry = numbered (posting conn donation) 1

closed-IsSound : IsSound closed.db
unfolding lock_period Audit.write Audit.insert_audit statement transact ◌>>=◌
closed-IsSound = (refl, (refl, tt))

donation-IsReversible : IsReversible conn 1 1 donated_entry closed.db
unfolding line_checks journal lock_period Audit.write Audit.insert_audit statement transact ◌>>=◌
donation-IsReversible = record {
  found = refl;
  filled = refl;
  listed = refl;
  checked = (refl, (refl, tt));
  placed = ((refl, refl), ((refl, refl), tt));
  poster = refl;
}

lock_spares_reversals_example :
    IsRejected (calm closed.db) (post_journal_entry conn donation (calm closed.db))
    × (after : Db) × (transact (reverse_journal_entry conn 1 "entered twice" 1) (calm closed.db)
        ≡ (ok (conn.row_id (entry_ids closed.db)), calm after))
    × (journal after
        ≡ journal closed.db
          ++ reversal_of donated_entry (conn.row_id (entry_ids closed.db)) "entered twice" 1 ∷ [])
unfolding text_le
lock_spares_reversals_example =
    lock_spares_reversals conn "2024-06-30" 1 posted closed.db 1 "entered twice" 1 donated_entry
      donation lock-posted here refl refl closed-IsSound donation-IsReversible refl
