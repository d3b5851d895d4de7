-- ===== src/Ledger/Reversal/Locked.antt =====
-- A reversal does not look at the lock of server/ledger/period.go.
use nonprofit_ledger.Prelude.{ℕ, String, ◌≡◌, sym, ◌∙◌, ap, true, some, [], ◌∷◌, ◌++◌}
use nonprofit_ledger.Prelude.Text.{text_le}
use nonprofit_ledger.Schema.{Db, entry_ids}
use nonprofit_ledger.Exec.{Conn, State, ok, tick, transact}
use nonprofit_ledger.Exec.Inversion.{transact-eq-ok}
use nonprofit_ledger.Ledger.Entry.{NewEntry}
use nonprofit_ledger.Ledger.Posting.{post_journal_entry}
use nonprofit_ledger.Ledger.Posting.Accepts.{calm}
use nonprofit_ledger.Ledger.Period.{lock_period}
use nonprofit_ledger.Ledger.Reversal.{reverse_journal_entry}
use nonprofit_ledger.Ledger.Reversal.Accepts.{IsReversible, reverse_succeeds}
use nonprofit_ledger.Ledger.Journal.{JournalEntry, journal, IsSound}
use nonprofit_ledger.Ledger.Journal.Reversed.{reversal_of, reversal-appends}
use nonprofit_ledger.Ledger.Books.History.{Reach}
use nonprofit_ledger.Ledger.Books.Framed.{without_locks}
use nonprofit_ledger.Ledger.Books.Locks.{IsRejected, locked-IsRejected}

-- After LockPeriod has returned without an error, and until the next lock, through any history of
-- postings whose totals fit an int64, reversals, new accounts and funds, writes of users and scheduled
-- backups, failing or not: on tables whose lines all belong to entries, when the driver fails no call,
-- an entry dated on or before the date of the lock that can be reversed is reversed, and the journal
-- gets an entry of this date; PostJournalEntry refuses every entry of the same date.
pub lock_spares_reversals :
    (conn : Conn) (date : String) (user : ℕ) (s : State) {t : State} (db : Db) (original_id : ℕ)
    (reason : String) (posted_by : ℕ) (o : JournalEntry) (e : NewEntry)
    → lock_period conn date user s ≡ (ok tt, t)
    → (r : Reach t.db db) → without_locks r ≡ true
    → text_le o.entry_date date ≡ true
    → IsSound db
    → IsReversible conn original_id posted_by o db
    → e.entry_date ≡ o.entry_date
    → IsRejected (calm db) (post_journal_entry conn e (calm db))
      × (after : Db) × (transact (reverse_journal_entry conn original_id reason posted_by) (calm db)
          ≡ (ok (conn.row_id (entry_ids db)), calm after))
      × (journal after
          ≡ journal db ++ reversal_of o (conn.row_id (entry_ids db)) reason posted_by ∷ [])
lock_spares_reversals conn date user s db original_id reason posted_by o e locked r free early sound
      can same =
    let (after, undone) = reverse_succeeds conn original_id reason posted_by db can in
    let (u, body, kept) = transact-eq-ok _ (calm db) undone in
    let (original, found, filled, grown, sound') =
      reversal-appends conn original_id reason posted_by (tick (calm db)) sound body in
    let this : original ≡ o = let both : some original ≡ some o = sym found ∙ can.found in cc in
    (
      locked-IsRejected conn date user s (calm db) conn e locked r free
          (ap (λ d. text_le d date) same ∙ early),
      after,
      undone,
      ap journal kept
          ∙ grown
          ∙ ap (λ x. journal db ++ reversal_of x (conn.row_id (entry_ids db)) reason posted_by ∷ [])
              this,
    )
