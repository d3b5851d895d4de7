-- ===== src/Ledger/Journal.antt =====
-- The journal as its readers see it: each entry with its lines, in the order of posting. The row
-- ids of the lines, and the table that they share, are forgotten.
pub mod Extend
pub mod Written
pub mod Posted
pub mod Reversed
use nonprofit_ledger.Prelude.{ℕ, String, ◌≡◌, true, eqb, contains, select, All, Option, List, map}
use nonprofit_ledger.Schema.{Db, EntryRow, LineRow, entry_ids}
use nonprofit_ledger.Ledger.Entry.{NewLine}
use nonprofit_ledger.Ledger.Entry.Lines.{line_of}

pub record JournalEntry : Type 0 where
  pub id : ℕ
  pub entry_date : String
  pub memo : String
  pub posted_by : ℕ
  pub posted_at : String
  pub source : String
  pub reverses : Option ℕ
  pub lines : List NewLine

abbrev pub owned_by : ℕ → List LineRow → List LineRow
owned_by id = select (λ (r : LineRow). eqb r.entry_id id)

abbrev pub entry_of : List LineRow → EntryRow → JournalEntry
entry_of lines r = record {
  id = r.id;
  entry_date = r.entry_date;
  memo = r.memo;
  posted_by = r.posted_by;
  posted_at = r.posted_at;
  source = r.source;
  reverses = r.reverses_entry_id;
  lines = map line_of (owned_by r.id lines);
}

unfoldable pub journal : Db → List JournalEntry
journal db = map (entry_of db.lines) db.entries

-- Every line belongs to an entry.
abbrev pub IsSound : Db → Type 0
IsSound db = All (λ (r : LineRow). contains r.entry_id (entry_ids db) ≡ true) db.lines
