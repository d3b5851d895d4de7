-- ===== src/Ledger/Books/Locks.antt =====
-- How long a lock of server/ledger/period.go lasts.
use nonprofit_ledger.Prelude.{
  ℕ, String, ◌≡◌, refl, sym, ◌∙◌, ap, true, false, inl, inr, some, arith, false≢true,
}
use nonprofit_ledger.Prelude.Text.{text_le}
use nonprofit_ledger.Schema.{Db}
use nonprofit_ledger.Exec.{Conn, State, Result, Error, ok, err, tick, later}
use nonprofit_ledger.Exec.Inversion.{transact-eq-ok, statement_then}
use nonprofit_ledger.Audit.{insert_audit, write-eq-ok}
use nonprofit_ledger.Ledger.Entry.{NewEntry, insert_entry, insert_line}
use nonprofit_ledger.Ledger.Posting.{locked_date, is_locked, post_journal_entry}
use nonprofit_ledger.Ledger.Posting.Atomic.{post_atomic}
use nonprofit_ledger.Ledger.Posting.Effect.{post_journal_entry-eq-ok}
use nonprofit_ledger.Ledger.Period.{upsert_period, lock_period}
use nonprofit_ledger.Ledger.Accounts.{insert_account}
use nonprofit_ledger.Ledger.Funds.{insert_fund}
use nonprofit_ledger.Users.{insert_user, update_users}
use nonprofit_ledger.Ledger.Books.History.{Reach, Result-cases}
use nonprofit_ledger.Ledger.Books.Framed.{IsFrame, without_locks, Reach-framed_without_locks}

-- The row of the lock has not changed.
record SamePeriod (before after : Db) : Type 0 where
  period : after.period ≡ before.period

period-IsFrame : IsFrame SamePeriod
unfolding insert_audit insert_entry insert_line insert_account insert_fund insert_user update_users
period-IsFrame = record {
  same = λ db. record { period = refl };
  both = λ before middle after p q. record { period = q.period ∙ p.period };
  audit = λ conn user action type id detail db u db' h. ground arith;
  entry = λ conn date memo user at source reverses db id db' h. ground arith;
  line = λ conn id l db u db' h. ground arith;
  account = λ conn a db id db' h. ground arith;
  fund = λ conn f db id db' h. ground arith;
  user = λ conn username hash role active must_change db id db' h. ground arith;
  role = λ id role valid db n db' h. ground arith;
  dismissal = λ id db n db' h. ground arith;
  backup = λ before row. record { period = refl };
}

pub lock_period-eq-ok :
    (conn : Conn) (date : String) (user : ℕ) (s : State) {t : State}
    → lock_period conn date user s ≡ (ok tt, t)
    → locked_date t.db.period ≡ some date
unfolding lock_period
lock_period-eq-ok conn date user s {t} h =
    let (u, ran, kept) = transact-eq-ok _ s h in
    let (_, db, upserted, h₁) =
      statement_then (upsert_period date user conn.rfc3339_now) _ (tick s) ran in
    let written =
      write-eq-ok conn user "lock_period" "accounting_period" 1 date
        (record { db = db; faults = later (tick s).faults }) h₁ in
    let set : locked_date db.period ≡ some date = ground arith in
    ap (λ (d : Db). locked_date d.period) (kept ∙ written) ∙ set

-- An entry that is refused, with the tables as they were.
pub record IsRejected (before : State) (result : Result ℕ × State) : Type 0 where
  pub error : Error
  pub after : State
  pub refused : result ≡ (err error, after)
  pub kept : after.db ≡ before.db

-- After LockPeriod has returned without an error, and until the next lock, through any history of
-- postings whose totals fit an int64, reversals, new accounts and funds, writes of users and scheduled
-- backups, failing or not, PostJournalEntry returns an error for every entry dated on or before the
-- date of the lock, as text, and leaves the tables as they were.
pub locked-IsRejected :
    (conn : Conn) (date : String) (user : ℕ) (s : State) {t : State} (u : State) (poster : Conn)
    (e : NewEntry)
    → lock_period conn date user s ≡ (ok tt, t)
    → (r : Reach t.db u.db) → without_locks r ≡ true
    → text_le e.entry_date date ≡ true
    → IsRejected u (post_journal_entry poster e u)
locked-IsRejected conn date user s {t} u poster e h r free early =
    let result = post_journal_entry poster e u in
    elim (Result-cases result.0 result.1) [
      | inl (x, failed) ↦ record {
        error = x;
        after = result.1;
        refused = failed;
        kept = post_atomic poster e u failed;
      }
      | inr (id, posted) ↦
          let (written, accepted) = post_journal_entry-eq-ok poster e u posted in
          let same = (Reach-framed_without_locks SamePeriod period-IsFrame r free).period in
          let locked : locked_date u.db.period ≡ some date =
            ap locked_date same ∙ lock_period-eq-ok conn date user s h in
          let unlocked : is_locked e.entry_date (some date) ≡ false =
            ap (is_locked e.entry_date) (sym locked) ∙ accepted.unlocked in
          absurd (false≢true (sym unlocked ∙ early))
    ]
