-- ===== src/Tests/Books.antt =====
-- Invariants of histories, at the first books of a new database and at a lock of the office.
use nonprofit_ledger.Prelude.{true, some, ◌≡◌, refl}
use nonprofit_ledger.Prelude.Text.{text_le}
use nonprofit_ledger.Schema.{Db, empty}
use nonprofit_ledger.Exec.{State, ok, statement, transact, ◌>>=◌}
use nonprofit_ledger.Audit
use nonprofit_ledger.Users.{deactivate}
use nonprofit_ledger.Ledger.Posting.{is_locked, post_journal_entry}
use nonprofit_ledger.Ledger.Posting.Dates.{is_locked-dates}
use nonprofit_ledger.Ledger.Period.{lock_period}
use nonprofit_ledger.Ledger.Books.History.{here, next, dismiss}
use nonprofit_ledger.Ledger.Books.Locks.{IsRejected, locked-IsRejected}
use nonprofit_ledger.Ledger.Books.Trail.{IsGrown, IsAudited, Reach-IsAudited}
use nonprofit_ledger.Ledger.Books.Classified.{AllClassified, Reach-AllClassified}
use nonprofit_ledger.Ledger.Books.Rows.{IsConsistent}
use nonprofit_ledger.Ledger.Books.Consistent.{Reach-IsConsistent}
use nonprofit_ledger.Ledger.Books.Credentials.{KeepsCredentials, Reach-KeepsCredentials}
use nonprofit_ledger.Tests.{conn, start, donation}
use nonprofit_ledger.Tests.Ledger.{with_donation}
use nonprofit_ledger.Tests.History.{with_fund, first_books-Reach}

abbrev pub first_books : Db
first_books = with_donation with_fund

Reach-IsAudited_example : IsGrown empty first_books × IsAudited first_books
Reach-IsAudited_example = Reach-IsAudited tt first_books-Reach

Reach-AllClassified_example : AllClassified first_books
Reach-AllClassified_example = Reach-AllClassified tt first_books-Reach

pub empty-IsConsistent : IsConsistent empty
empty-IsConsistent = record {
  users = record { ids = tt; usernames = tt; roles = tt };
  accounts = record { ids = tt; codes = tt; types = tt };
  funds = record { ids = tt; codes = tt; classes = tt };
  entries = tt;
  lines = tt;
}

Reach-IsConsistent_example : IsConsistent first_books
Reach-IsConsistent_example = Reach-IsConsistent empty-IsConsistent first_books-Reach

Reach-KeepsCredentials_example : KeepsCredentials empty first_books
Reach-KeepsCredentials_example = Reach-KeepsCredentials first_books-Reach

-- The office after a lock, and after the accountant has left.
abbrev locked : State
locked = (lock_period conn "2024-06-30" 1 start).1

abbrev left : State
left = (deactivate 2 locked).1

lock-office : lock_period conn "2024-06-30" 1 start ≡ (ok tt, locked)
unfolding lock_period Audit.write Audit.insert_audit statement transact ◌>>=◌
lock-office = refl

locked-IsRejected_example : IsRejected left (post_journal_entry conn donation left)
unfolding text_le
locked-IsRejected_example =
    locked-IsRejected conn "2024-06-30" 1 start left conn donation lock-office
      (next here (dismiss 2 locked)) refl refl

-- The donation's date, and the date of the lock.
is_locked-dates_example : is_locked "2024-03-01" (some "2024-06-30") ≡ true
is_locked-dates_example =
    is_locked-dates (record { year = 2024; month = 3; day = 1 })
      (record { year = 2024; month = 6; day = 30 }) "2024-03-01" "2024-06-30" refl refl
