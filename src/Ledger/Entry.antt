-- ===== src/Ledger/Entry.antt =====
-- The statements that write the journal, which server/ledger/posting.go and reversal.go share.
pub mod Inserts
pub mod Lines
pub mod Written
use nonprofit_ledger.Prelude.{
  ℕ, ⊤, String, Bool, true, ◌&&◌, ◌||◌, not, contains, if◌then◌else◌, Option, none, some, List, [],
  ◌∷◌, ◌++◌, ◌==◌,
}
use nonprofit_ledger.Prelude.Int.{ℤ, pos, ltb_ℤ, leb_ℤ}
use nonprofit_ledger.Schema.{Db, EntryRow, LineRow, account_ids, fund_ids, entry_ids, line_ids}
use nonprofit_ledger.Exec.{
  Conn, Exec, pure, statement, ◌>>=◌, ◌>>◌, Outcome, done, fail, check_failed, foreign_key_failed,
}

-- A debit or credit leg; amounts are cents.
pub record NewLine : Type 0 where
  pub account_id : ℕ
  pub fund_id : ℕ
  pub functional_category : Option String
  pub debit_amount : ℤ
  pub credit_amount : ℤ

pub record NewEntry : Type 0 where
  pub entry_date : String
  pub memo : String
  pub posted_by : ℕ
  pub source : String
  pub lines : List NewLine

-- CHECK (functional_category IN (...)): NULL passes
abbrev pub category_check : Option String → Bool
category_check none = true
category_check (some c) = c == "program" || (c == "management_general" || c == "fundraising")

-- The CHECK constraints of journal_lines.
unfoldable pub line_checks : NewLine → Bool
line_checks l =
    category_check l.functional_category
    && (leb_ℤ (pos 0) l.debit_amount
        && (leb_ℤ (pos 0) l.credit_amount
            && not (ltb_ℤ (pos 0) l.debit_amount && ltb_ℤ (pos 0) l.credit_amount)))

-- The foreign keys of journal_lines.
unfoldable pub line_references : ℕ → NewLine → Db → Bool
line_references entry_id l db =
    contains entry_id (entry_ids db)
    && (contains l.account_id (account_ids db) && contains l.fund_id (fund_ids db))

module _ (conn : Conn) where
  abbrev pub entry_row : String → String → ℕ → String → String → Option ℕ → Db → EntryRow
  entry_row entry_date memo posted_by posted_at source reverses db = record {
    id = conn.row_id (entry_ids db);
    entry_date = entry_date;
    memo = memo;
    posted_by = posted_by;
    posted_at = posted_at;
    source = source;
    reverses_entry_id = reverses;
  }

  -- The foreign key of journal_entries.
  abbrev pub entry_references : Option ℕ → Db → Bool
  entry_references none db = true
  entry_references (some original) db = contains original (entry_ids db)

  -- INSERT INTO journal_entries
  unfoldable pub insert_entry : String → String → ℕ → String → String → Option ℕ → Db → Outcome ℕ
  insert_entry entry_date memo posted_by posted_at source reverses db =
      let row = entry_row entry_date memo posted_by posted_at source reverses db in
      if conn.foreign_keys && not (entry_references reverses db)
      then fail foreign_key_failed
      else done row.id (record db { entries = db.entries ++ row ∷ [] })

  abbrev pub line_row : ℕ → NewLine → Db → LineRow
  line_row entry_id l db = record {
    id = conn.row_id (line_ids db);
    entry_id = entry_id;
    account_id = l.account_id;
    fund_id = l.fund_id;
    functional_category = l.functional_category;
    debit_amount = l.debit_amount;
    credit_amount = l.credit_amount;
  }

  -- INSERT INTO journal_lines
  unfoldable pub insert_line : ℕ → NewLine → Db → Outcome ⊤
  insert_line entry_id l db =
      if not (line_checks l)
      then fail check_failed
      else if conn.foreign_keys && not (line_references entry_id l db)
      then fail foreign_key_failed
      else done tt (record db { lines = db.lines ++ line_row entry_id l db ∷ [] })

  -- The loop that writes the lines.
  unfoldable pub insert_lines : ℕ → List NewLine → Exec ⊤
  unfolding statement insert_line ◌>>=◌
  insert_lines entry_id [] = pure tt
  insert_lines entry_id (line ∷ lines) = do
    statement (insert_line entry_id line)
    insert_lines entry_id lines
