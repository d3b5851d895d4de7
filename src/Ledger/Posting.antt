-- ===== src/Ledger/Posting.antt =====
-- server/ledger/posting.go
pub mod Steps
pub mod Effect
pub mod Atomic
pub mod Accepts
pub mod Decided
pub mod Dates
use nonprofit_ledger.Prelude.{
  ℕ, ⊤, String, Bool, false, ◌&&◌, not, eqb, find, is_empty, if◌then◌else◌, Option, none, some,
  List, [], ◌∷◌, ◌==◌,
}
use nonprofit_ledger.Prelude.Int.{ℤ, pos, eqb_ℤ, add64}
use nonprofit_ledger.Prelude.Text.{text_le}
use nonprofit_ledger.Schema.{Db, AccountRow, PeriodRow}
use nonprofit_ledger.Exec.{
  Conn, Exec, no_lines, not_balanced, period_locked, account_missing, category_required, pure,
  raise_if, or_raise, statement, query, fallible, transact, ◌>>=◌, ◌>>◌,
}
use nonprofit_ledger.Audit
use nonprofit_ledger.Ledger.Entry.{NewLine, NewEntry, insert_entry, insert_lines}

-- The loop of `balances`, over `debits` and `credits`.
unfoldable pub balances_from : ℤ → ℤ → List NewLine → Bool
unfolding add64
balances_from debits credits [] = eqb_ℤ debits credits && not (eqb_ℤ debits (pos 0))
balances_from debits credits (l ∷ ls) =
    balances_from (add64 debits l.debit_amount) (add64 credits l.credit_amount) ls

unfoldable pub balances : List NewLine → Bool
unfolding balances_from
balances lines = balances_from (pos 0) (pos 0) lines

abbrev pub default_source : String → String
default_source source = if source == "" then "manual" else source

-- No row and a NULL date both mean that no period is locked.
abbrev pub locked_date : Option PeriodRow → Option String
locked_date none = none
locked_date (some p) = p.locked_through_date

unfoldable pub get_locked_through_date_tx : Exec (Option String)
unfolding query
get_locked_through_date_tx = query (λ db. locked_date db.period)

-- `lockedThrough != nil && e.EntryDate <= *lockedThrough`
abbrev pub is_locked : String → Option String → Bool
is_locked entry_date none = false
is_locked entry_date (some date) = text_le entry_date date

abbrev pub account_type : ℕ → Db → Option String
account_type account_id db = elim (find (λ (r : AccountRow). eqb r.id account_id) db.accounts) [
  | none ↦ none
  | some r ↦ some r.type
]

unfoldable pub lookup_account_type : ℕ → Exec String
unfolding query ◌>>=◌
lookup_account_type account_id = do
  found ← query (account_type account_id)
  or_raise found (account_missing account_id)

abbrev pub lacks_category : String → Option String → Bool
lacks_category type none = type == "expense"
lacks_category type (some c) = false

-- The loop that looks at the accounts of the lines.
unfoldable pub check_lines : List NewLine → Exec ⊤
unfolding lookup_account_type
check_lines [] = pure tt
check_lines (line ∷ lines) = do
  type ← lookup_account_type line.account_id
  raise_if (lacks_category type line.functional_category) (category_required line.account_id)
  check_lines lines

module _ (conn : Conn) where
  -- What `PostJournalEntry` does between `Begin` and `Commit`.
  unfoldable pub post_tx : NewEntry → Exec ℕ
  unfolding statement fallible get_locked_through_date_tx check_lines insert_entry insert_lines
      Audit.write
  post_tx e = do
    locked_through ← get_locked_through_date_tx
    raise_if (is_locked e.entry_date locked_through) period_locked
    check_lines e.lines
    row_id ← statement (
        insert_entry conn e.entry_date e.memo e.posted_by conn.datetime_now
          (default_source e.source) none)
    entry_id ← fallible row_id
    insert_lines conn entry_id e.lines
    Audit.write conn e.posted_by "create" "journal_entry" entry_id e.memo
    pure entry_id

  unfoldable pub post_journal_entry : NewEntry → Exec ℕ
  unfolding balances transact post_tx
  post_journal_entry e = do
    raise_if (is_empty e.lines) no_lines
    raise_if (not (balances e.lines)) not_balanced
    transact (post_tx e)
