-- ===== src/Ledger/Reversal.antt =====
-- server/ledger/reversal.go
pub mod Effect
pub mod Accepts
pub mod Undo
pub mod Locked
use Prim.Native.String
use nonprofit_ledger.Prelude.{ℕ, String, eqb, find, select, is_empty, Option, none, some, List, map}
use nonprofit_ledger.Prelude.Int.{ℤ}
use nonprofit_ledger.Schema.{Db, EntryRow, LineRow}
use nonprofit_ledger.Exec.{
  Conn, Exec, original_missing, original_has_no_lines, pure, raise_if, or_raise, statement, query,
  fallible, ◌>>=◌, ◌>>◌,
}
use nonprofit_ledger.Audit
use nonprofit_ledger.Ledger.Entry.{NewLine, insert_entry, insert_lines}

-- A stored line, with what a swapped copy needs.
pub record ReversalLine : Type 0 where
  pub account_id : ℕ
  pub fund_id : ℕ
  pub functional_category : Option String
  pub debit_amount : ℤ
  pub credit_amount : ℤ

abbrev pub scan_line : LineRow → ReversalLine
scan_line r = record {
  account_id = r.account_id;
  fund_id = r.fund_id;
  functional_category = r.functional_category;
  debit_amount = r.debit_amount;
  credit_amount = r.credit_amount;
}

-- SELECT entry_date, posted_at FROM journal_entries WHERE id = ?
abbrev pub read_dates : ℕ → Db → Option (String × String)
read_dates original_id db = elim (find (λ (r : EntryRow). eqb r.id original_id) db.entries) [
  | none ↦ none
  | some r ↦ some (r.entry_date, r.posted_at)
]

-- SELECT ... FROM journal_lines WHERE entry_id = ? ORDER BY id
abbrev pub read_lines : ℕ → Db → List ReversalLine
read_lines original_id db =
    map scan_line (select (λ (r : LineRow). eqb r.entry_id original_id) db.lines)

unfoldable pub read_reversal_lines : ℕ → Exec (List ReversalLine)
unfolding query
read_reversal_lines original_id = query (read_lines original_id)

-- The values that the insert of a reversal's line is given: debit and credit change places.
abbrev pub swapped : ReversalLine → NewLine
swapped l = record {
  account_id = l.account_id;
  fund_id = l.fund_id;
  functional_category = l.functional_category;
  debit_amount = l.credit_amount;
  credit_amount = l.debit_amount;
}

abbrev pub reversal_memo : String → String
reversal_memo reason = String.◌++◌ "Reversal: " reason

module _ (conn : Conn) where
  -- The caller owns the transaction.
  unfoldable pub reverse_journal_entry : ℕ → String → ℕ → Exec ℕ
  unfolding query statement fallible insert_entry insert_lines read_reversal_lines Audit.write ◌>>=◌
  reverse_journal_entry original_id reason posted_by = do
    found ← query (read_dates original_id)
    dates ← or_raise found original_missing
    lines ← read_reversal_lines original_id
    raise_if (is_empty lines) original_has_no_lines
    let memo = reversal_memo reason
    row_id ←
        statement (insert_entry conn dates.0 memo posted_by dates.1 "reversal" (some original_id))
    new_id ← fallible row_id
    insert_lines conn new_id (map swapped lines)
    Audit.write conn posted_by "reversal" "journal_entry" new_id memo
    pure new_id
