-- ===== src/Ledger/Books/History.antt =====
-- Every history of the tables: calls of the writing functions of the packages ledger and users in
-- any order, the making of the first admin, and runs of the backup scheduler, each with its own
-- connection, clock and faults, and each of them successful or not. The caller of a reversal runs
-- it in a transaction of its own.
use nonprofit_ledger.Prelude.{
  ℕ, String, Option, ◌≡◌, refl, sym, ◌∙◌, ap, subst, ◌⊎◌, inl, inr, List, [], ◌++◌, append-nil,
  append_assoc,
}
use nonprofit_ledger.Prelude.Int.{pos}
use nonprofit_ledger.Schema.{Db, empty}
use nonprofit_ledger.Exec.{Conn, State, Result, Error, ok, err, tick, transact}
use nonprofit_ledger.Exec.Inversion.{transact_atomic, transact-eq-ok}
use nonprofit_ledger.Ledger.Entry.{NewEntry}
use nonprofit_ledger.Ledger.Posting.{post_journal_entry}
use nonprofit_ledger.Ledger.Posting.Atomic.{post_atomic}
use nonprofit_ledger.Ledger.Reversal.{reverse_journal_entry}
use nonprofit_ledger.Ledger.Period.{lock_period}
use nonprofit_ledger.Ledger.Accounts.{NewAccount, create_account}
use nonprofit_ledger.Ledger.Funds.{NewFund, create_fund}
use nonprofit_ledger.Ledger.Balances.{FundBalanceRow, trial_balance}
use nonprofit_ledger.Ledger.Balances.Total.{sum_balances, trial_balance_lem}
use nonprofit_ledger.Users.{create_user, update_role, deactivate}
use nonprofit_ledger.Ledger.Journal.{JournalEntry, journal}
use nonprofit_ledger.Ledger.Journal.Posted.{post-appends}
use nonprofit_ledger.Ledger.Journal.Reversed.{reversal-appends}
use nonprofit_ledger.Ledger.Books.{IsBooks, Fits}
use nonprofit_ledger.Ledger.Books.Writes.{post-IsBooks, reverse-IsBooks}
use nonprofit_ledger.Ledger.Books.Others.{
  SameJournal, SameJournal-journal, SameJournal-IsBooks, lock_period-SameJournal,
  create_account-SameJournal, create_fund-SameJournal, create_user-SameJournal,
  update_role-SameJournal, deactivate-SameJournal, bootstrap_first_admin-SameJournal,
  run_scheduled-SameJournal,
}
use nonprofit_ledger.Auth.Password.{Crypto}
use nonprofit_ledger.Database.{Sqlite}
use nonprofit_ledger.Disk.{Host}
use nonprofit_ledger.Backup.{Clock, run_scheduled}
use nonprofit_ledger.Server.{bootstrap_first_admin}

pub data Step : Db → Db → Type 0 where
  post :
      (conn : Conn) (e : NewEntry) (s : State)
      → Fits e
      → Step s.db (post_journal_entry conn e s).1.db
  reverse :
      (conn : Conn) (original_id : ℕ) (reason : String) (posted_by : ℕ) (s : State)
      → Step s.db (transact (reverse_journal_entry conn original_id reason posted_by) s).1.db
  lock :
      (conn : Conn) (through_date : String) (locked_by : ℕ) (s : State)
      → Step s.db (lock_period conn through_date locked_by s).1.db
  open_account :
      (conn : Conn) (a : NewAccount) (s : State) → Step s.db (create_account conn a s).1.db
  open_fund : (conn : Conn) (f : NewFund) (s : State) → Step s.db (create_fund conn f s).1.db
  add_user :
      (conn : Conn) (username password_hash role : String) (s : State)
      → Step s.db (create_user conn username password_hash role s).1.db
  change_role :
      (user_id : ℕ) (role : String) (s : State) → Step s.db (update_role user_id role s).1.db
  dismiss : (user_id : ℕ) (s : State) → Step s.db (deactivate user_id s).1.db
  first_admin :
      (conn : Conn) (crypto : Crypto) (random salt : Option (List ℕ)) (s : State)
      → Step s.db (bootstrap_first_admin conn crypto random salt s).1.db
  back_up :
      (conn : Conn) (text : Error → String) (sqlite : Sqlite) (dir : String) (keep_n : ℕ)
      (clock : Clock) (h : Host)
      → Step h.state.db (run_scheduled conn text sqlite dir keep_n clock h).1.state.db

pub data Reach (before : Db) : Db → Type 0 where
  here : Reach before before
  next : {middle after : Db} → Reach before middle → Step middle after → Reach before after

-- The books stay in order, and the journal only grows at its end.
pub record IsContinued (before after : Db) : Type 0 where
  pub books : IsBooks after
  pub more : List JournalEntry
  pub grown : journal after ≡ journal before ++ more

pub Result-cases :
    {A : Type 0} (r : Result A) (t : State)
    → ((e : Error) × (◌≡◌ {A = Result A × State} (r, t) (err e, t)))
      ⊎ ((a : A) × (◌≡◌ {A = Result A × State} (r, t) (ok a, t)))
Result-cases (ok a) t = inr (a, refl)
Result-cases (err e) t = inl (e, refl)

unchanged : {before after : Db} → IsBooks before → after ≡ before → IsContinued before after
unchanged {before} b same = record {
  books = subst IsBooks (sym same) b;
  more = [];
  grown = ap journal same ∙ sym (append-nil (journal before));
}

apart : {before after : Db} → IsBooks before → SameJournal before after → IsContinued before after
apart {before} b same = record {
  books = SameJournal-IsBooks same b;
  more = [];
  grown = SameJournal-journal same ∙ sym (append-nil (journal before));
}

post-IsContinued :
    (conn : Conn) (e : NewEntry) (s : State)
    → IsBooks s.db
    → Fits e
    → IsContinued s.db (post_journal_entry conn e s).1.db
post-IsContinued conn e s b fits =
    elim (Result-cases (post_journal_entry conn e s).0 (post_journal_entry conn e s).1) [
      | inl (x, failed) ↦ unchanged b (post_atomic conn e s failed)
      | inr (id, posted) ↦ record {
        books = post-IsBooks conn e s b fits posted;
        more = _;
        grown = (post-appends conn e s b.sound posted).0;
      }
    ]

reverse-IsContinued :
    (conn : Conn) (original_id : ℕ) (reason : String) (posted_by : ℕ) (s : State)
    → IsBooks s.db
    → IsContinued s.db (transact (reverse_journal_entry conn original_id reason posted_by) s).1.db
reverse-IsContinued conn original_id reason posted_by s b =
    let body = reverse_journal_entry conn original_id reason posted_by in
    elim (Result-cases (transact body s).0 (transact body s).1) [
      | inl (x, failed) ↦ unchanged b (transact_atomic body s failed)
      | inr (id, made) ↦
          let (u, ran, kept) = transact-eq-ok body s made in
          let (o, found, filled, grown, sound) =
            reversal-appends conn original_id reason posted_by (tick s) b.sound ran in
          record {
            books =
                subst IsBooks (sym kept)
                  (reverse-IsBooks conn original_id reason posted_by (tick s) b ran);
            more = _;
            grown = ap journal kept ∙ grown;
          }
    ]

-- What holds of postings, of reversals and of whatever leaves the journal alone holds of all steps.
module _ (R : Db → Db → Type 0) where
  pub Step-by :
      ((conn : Conn) (e : NewEntry) (s : State)
        → Fits e
        → R s.db (post_journal_entry conn e s).1.db)
      → ((conn : Conn) (original_id : ℕ) (reason : String) (posted_by : ℕ) (s : State)
          → R s.db (transact (reverse_journal_entry conn original_id reason posted_by) s).1.db)
      → ((before after : Db) → Step before after → SameJournal before after → R before after)
      → {before after : Db} → Step before after
      → R before after
  Step-by p r o (post conn e s fits) = p conn e s fits
  Step-by p r o (reverse conn original_id reason posted_by s) =
      r conn original_id reason posted_by s
  Step-by p r o (lock conn date user s) =
      o _ _ (lock conn date user s) (lock_period-SameJournal conn date user s)
  Step-by p r o (open_account conn a s) =
      o _ _ (open_account conn a s) (create_account-SameJournal conn a s)
  Step-by p r o (open_fund conn f s) = o _ _ (open_fund conn f s) (create_fund-SameJournal conn f s)
  Step-by p r o (add_user conn name hash role s) =
      o _ _ (add_user conn name hash role s) (create_user-SameJournal conn name hash role s)
  Step-by p r o (change_role user_id role s) =
      o _ _ (change_role user_id role s) (update_role-SameJournal user_id role s)
  Step-by p r o (dismiss user_id s) = o _ _ (dismiss user_id s) (deactivate-SameJournal user_id s)
  Step-by p r o (first_admin conn crypto random salt s) =
      o _ _ (first_admin conn crypto random salt s)
        (bootstrap_first_admin-SameJournal conn crypto random salt s)
  Step-by p r o (back_up conn text sqlite dir keep_n clock h) =
      o _ _ (back_up conn text sqlite dir keep_n clock h)
        (run_scheduled-SameJournal conn text sqlite dir keep_n clock h)

Step-IsContinued :
    {before after : Db} → Step before after → IsBooks before → IsContinued before after
Step-IsContinued =
    Step-by (λ before after. IsBooks before → IsContinued before after)
      (λ conn e s fits b. post-IsContinued conn e s b fits)
      (λ conn original_id reason posted_by s b.
        reverse-IsContinued conn original_id reason posted_by s b)
      (λ before after st same b. apart b same)

-- Through any history of postings whose totals fit an int64, reversals, period locks, new accounts
-- and funds, writes of users and scheduled backups, failing or not, books in order stay in order,
-- and the journal is append-only: what it held before stands unchanged at its head.
pub Reach-IsContinued :
    {before after : Db} → IsBooks before → Reach before after → IsContinued before after
Reach-IsContinued {before} b here = unchanged b refl
Reach-IsContinued {before} b (next r st) =
    let first = Reach-IsContinued b r in
    let last = Step-IsContinued st first.books in
    record {
      books = last.books;
      more = first.more ++ last.more;
      grown =
          last.grown
          ∙ ap (λ (m : List JournalEntry). m ++ last.more) first.grown
          ∙ append_assoc (journal before) first.more last.more;
    }

pub empty-IsBooks : IsBooks empty
unfolding journal
empty-IsBooks = record { sound = tt; balanced = tt; total = refl }

-- After any such history of a new database, a trial balance that is returned adds up to zero.
pub trial_balance-zero :
    (s : State) {rows : List FundBalanceRow} {t : State}
    → Reach empty s.db
    → trial_balance s ≡ (ok rows, t)
    → sum_balances rows ≡ pos 0
trial_balance-zero s r h =
    let (ids, ascending, balances, total, same) = trial_balance_lem s h in
    total ∙ (Reach-IsContinued empty-IsBooks r).books.total
