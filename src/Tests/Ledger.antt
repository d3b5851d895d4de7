-- ===== src/Tests/Ledger.antt =====
-- Postings, reversals and balances of the sample office.
use nonprofit_ledger.Prelude.{
  ◌≡◌, ◌↔◌, refl, false, contains, is_empty, none, some, List, [], ◌∷◌, ◌++◌, arith,
}
use nonprofit_ledger.Prelude.Int.{pos, ◌+ℤ◌, wrap64}
use nonprofit_ledger.Prelude.Text.{text_le}
use nonprofit_ledger.Schema.{Db, LineRow, entry_ids}
use nonprofit_ledger.Exec.{
  State, ok, sql, driver_error, ◌>>=◌, statement, transact, query, fallible,
}
use nonprofit_ledger.Audit
use nonprofit_ledger.Ledger.Entry.{
  line_checks, line_references, insert_entry, insert_line, insert_lines,
}
use nonprofit_ledger.Ledger.Posting.{
  balances, balances_from, post_tx, post_journal_entry, check_lines, lookup_account_type,
  get_locked_through_date_tx,
}
use nonprofit_ledger.Ledger.Posting.Accepts.{calm, IsAcceptable}
use nonprofit_ledger.Ledger.Posting.Decided.{post-decides}
use nonprofit_ledger.Ledger.Posting.Atomic.{post_atomic}
use nonprofit_ledger.Ledger.Reversal.{reverse_journal_entry, read_reversal_lines}
use nonprofit_ledger.Ledger.Balances.{}
use nonprofit_ledger.Ledger.Balances.Total.{}
use nonprofit_ledger.Ledger.Entry.Written.{IsWritten}
use nonprofit_ledger.Ledger.Posting.Effect.{posting, IsAccepted, post_journal_entry-eq-ok}
use nonprofit_ledger.Ledger.Journal.{JournalEntry, journal, IsSound}
use nonprofit_ledger.Ledger.Journal.Written.{numbered}
use nonprofit_ledger.Ledger.Journal.Posted.{post-appends}
use nonprofit_ledger.Ledger.Journal.Reversed.{entry_with, reversal_of, reversal-appends}
use nonprofit_ledger.Ledger.Accounts.{}
use nonprofit_ledger.Ledger.Funds.{}
use nonprofit_ledger.Ledger.Books.{IsBooks, Fits}
use nonprofit_ledger.Ledger.Books.History.{here, next, post, IsContinued, Reach-IsContinued}
use nonprofit_ledger.Tests.{conn, office, start, failing, donation}

abbrev pub donated : List LineRow
donated =
    record {
      id = 1;
      entry_id = 1;
      account_id = 1;
      fund_id = 1;
      functional_category = none;
      debit_amount = pos 2500;
      credit_amount = pos 0;
    }
    ∷ record {
      id = 2;
      entry_id = 1;
      account_id = 2;
      fund_id = 1;
      functional_category = none;
      debit_amount = pos 0;
      credit_amount = pos 2500;
    }
    ∷ []

abbrev pub with_donation : Db → Db
with_donation db = record db {
  entries =
      record {
        id = 1;
        entry_date = "2024-03-01";
        memo = "March donations";
        posted_by = 1;
        posted_at = "2024-03-02 10:00:00";
        source = "manual";
        reverses_entry_id = none;
      }
      ∷ [];
  lines = donated;
  audit_log =
      record {
        id = 1;
        actor_user_id = 1;
        action = "create";
        entity_type = "journal_entry";
        entity_id = 1;
        detail = "March donations";
        occurred_at = "2024-03-02 10:00:00";
      }
      ∷ [];
}

abbrev pub state_of : Db → State
state_of db = record { db = db; faults = [] }

-- The tables after the donation, and after its reversal.
abbrev pub posted : State
posted = state_of (with_donation office)

abbrev pub reversed : State
reversed = state_of (record office {
  entries =
      record {
        id = 1;
        entry_date = "2024-03-01";
        memo = "March donations";
        posted_by = 1;
        posted_at = "2024-03-02 10:00:00";
        source = "manual";
        reverses_entry_id = none;
      }
      ∷ record {
        id = 2;
        entry_date = "2024-03-01";
        memo = "Reversal: entered twice";
        posted_by = 1;
        posted_at = "2024-03-02 10:00:00";
        source = "reversal";
        reverses_entry_id = some 1;
      }
      ∷ [];
  lines =
      donated
      ++ record {
        id = 3;
        entry_id = 2;
        account_id = 1;
        fund_id = 1;
        functional_category = none;
        debit_amount = pos 0;
        credit_amount = pos 2500;
      }
        ∷ record {
          id = 4;
          entry_id = 2;
          account_id = 2;
          fund_id = 1;
          functional_category = none;
          debit_amount = pos 2500;
          credit_amount = pos 0;
        }
        ∷ [];
  audit_log =
      posted.db.audit_log
      ++ record {
        id = 2;
        actor_user_id = 1;
        action = "reversal";
        entity_type = "journal_entry";
        entity_id = 2;
        detail = "Reversal: entered twice";
        occurred_at = "2024-03-02 10:00:00";
      }
        ∷ [];
})

pub post-donation : post_journal_entry conn donation start ≡ (ok 1, posted)
unfolding post_journal_entry fallible transact post_tx get_locked_through_date_tx check_lines
    lookup_account_type insert_entry insert_lines insert_line line_checks line_references
    Audit.write Audit.insert_audit statement query ◌>>=◌ balances balances_from wrap64 ◌+ℤ◌ text_le
post-donation = refl

post_atomic_example : (post_journal_entry conn donation failing).1.db ≡ office
unfolding post_journal_entry fallible transact post_tx get_locked_through_date_tx check_lines
    lookup_account_type insert_entry insert_lines insert_line line_checks line_references
    Audit.write Audit.insert_audit statement query ◌>>=◌ balances balances_from wrap64 ◌+ℤ◌ text_le
post_atomic_example = post_atomic conn donation failing {x = sql driver_error} refl

pub reverse-donation : reverse_journal_entry conn 1 "entered twice" 1 posted ≡ (ok 2, reversed)
unfolding reverse_journal_entry fallible read_reversal_lines query statement insert_entry
    insert_lines insert_line line_checks line_references Audit.write Audit.insert_audit ◌>>=◌
reverse-donation = refl

pub office-IsSound : IsSound office
office-IsSound = tt

posted-IsSound : IsSound posted.db
posted-IsSound =
    let (_, _, sound) = post-appends conn donation start office-IsSound post-donation in sound

post-appends_example :
    (journal posted.db ≡ journal office ++ numbered (posting conn donation) 1 ∷ [])
    × (contains 1 (entry_ids office) ≡ false)
    × IsSound posted.db
post-appends_example = post-appends conn donation start office-IsSound post-donation

reversal-appends_example :
    (o : JournalEntry) × (entry_with 1 (journal posted.db) ≡ some o)
    × (is_empty o.lines ≡ false)
    × (journal reversed.db ≡ journal posted.db ++ reversal_of o 2 "entered twice" 1 ∷ [])
    × IsSound reversed.db
reversal-appends_example =
    reversal-appends conn 1 "entered twice" 1 posted posted-IsSound reverse-donation

post_journal_entry-eq-ok_example :
    IsWritten conn (posting conn donation) office 1 posted.db × IsAccepted conn donation office
post_journal_entry-eq-ok_example = post_journal_entry-eq-ok conn donation start post-donation

office-IsBooks : IsBooks office
unfolding journal
office-IsBooks = record { sound = tt; balanced = tt; total = refl }

pub donation-Fits : Fits donation
unfolding ◌+ℤ◌
donation-Fits = ground arith

Reach-IsContinued_example : IsContinued office (post_journal_entry conn donation start).1.db
Reach-IsContinued_example =
    Reach-IsContinued office-IsBooks (next here (post conn donation start donation-Fits))

pub donation-IsAcceptable : IsAcceptable conn donation office
unfolding balances balances_from ◌+ℤ◌ wrap64 line_checks
donation-IsAcceptable = record {
  nonempty = refl;
  balanced = refl;
  unlocked = refl;
  classified = (("asset", refl, refl), (("revenue", refl, refl), tt));
  checked = (refl, (refl, tt));
  placed = ((refl, refl), ((refl, refl), tt));
  poster = refl;
}

post-decides_example :
    ((after : Db) × (post_journal_entry conn donation (calm office) ≡ (ok 1, calm after)))
    ↔ IsAcceptable conn donation office
post-decides_example = post-decides conn refl donation office
