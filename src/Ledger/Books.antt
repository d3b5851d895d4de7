-- ===== src/Ledger/Books.antt =====
-- Books in order: every line belongs to an entry, and every entry has debits equal to its credits.
pub mod Writes
pub mod History
pub mod Framed
pub mod Locks
pub mod Trail
pub mod Classified
pub mod Rows
pub mod Credentials
pub mod Consistent
pub mod Others
pub mod Cancel
use nonprofit_ledger.Prelude.{◌≡◌, All, map}
use nonprofit_ledger.Prelude.Int.{pos, ◌≤ℤ◌}
use nonprofit_ledger.Schema.{Db}
use nonprofit_ledger.Ledger.Entry.{NewEntry}
use nonprofit_ledger.Ledger.Entry.Lines.{line_of}
use nonprofit_ledger.Ledger.Journal.{JournalEntry, journal, IsSound}
use nonprofit_ledger.Ledger.Totals.{debits, credits, net}
use nonprofit_ledger.Ledger.Totals.Balanced.{max_int64}

abbrev pub IsBalanced : JournalEntry → Type 0
IsBalanced o = net o.lines ≡ pos 0

pub record IsBooks (db : Db) : Type 0 where
  pub sound : IsSound db
  pub balanced : All IsBalanced (journal db)
  pub total : net (map line_of db.lines) ≡ pos 0

-- The totals of an entry fit an int64.
abbrev pub Fits : NewEntry → Type 0
Fits e = (debits e.lines ≤ℤ max_int64) × (credits e.lines ≤ℤ max_int64)
