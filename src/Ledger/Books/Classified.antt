-- ===== src/Ledger/Books/Classified.antt =====
-- The accounts of the journal's lines over histories: what PostJournalEntry asks of an expense holds
-- of every line that is ever written, by a reversal too.
use nonprofit_ledger.Prelude.{
  ℕ, String, ◌≡◌, refl, sym, ◌∙◌, ap, subst, inl, inr, Option-cases, Bool-cases, eqb, find,
  find-append_some, All, All-append, All-weaken, select, Option, none, some, List, [], ◌∷◌, ◌++◌,
  map, arith,
}
use nonprofit_ledger.Schema.{Db, AccountRow, LineRow}
use nonprofit_ledger.Exec.{Conn, State, tick, transact}
use nonprofit_ledger.Exec.Inversion.{transact_atomic, transact-eq-ok}
use nonprofit_ledger.Audit.{insert_audit}
use nonprofit_ledger.Ledger.Frame.{Of}
use nonprofit_ledger.Ledger.Entry.{NewEntry, insert_entry, insert_line}
use nonprofit_ledger.Ledger.Entry.Lines.{line_of}
use nonprofit_ledger.Ledger.Entry.Written.{Draft, IsWritten}
use nonprofit_ledger.Ledger.Posting.{account_type, post_journal_entry}
use nonprofit_ledger.Ledger.Posting.Steps.{IsClassified}
use nonprofit_ledger.Ledger.Posting.Atomic.{post_atomic}
use nonprofit_ledger.Ledger.Posting.Effect.{posting, post_journal_entry-eq-ok}
use nonprofit_ledger.Ledger.Reversal.{scan_line, swapped, reverse_journal_entry}
use nonprofit_ledger.Ledger.Reversal.Effect.{reversing, reverse_journal_entry-eq-ok}
use nonprofit_ledger.Ledger.Accounts.{NewAccount, insert_account, account_row}
use nonprofit_ledger.Ledger.Funds.{insert_fund}
use nonprofit_ledger.Users.{insert_user, update_users}
use nonprofit_ledger.Ledger.Books.Others.{SameJournal}
use nonprofit_ledger.Ledger.Books.History.{Step, Step-by, Reach, here, next, Result-cases}
use nonprofit_ledger.Ledger.Books.Framed.{IsFrame, Step-framed_with_locks}

-- The account of every line exists, and every line of an expense account has a category.
abbrev pub AllClassified : Db → Type 0
AllClassified db = All (λ r. IsClassified db (line_of r)) db.lines

-- An account that is there stays, with its type.
abbrev KeepsAccounts : Db → Db → Type 0
KeepsAccounts before after =
    (id : ℕ) (type : String)
    → account_type id before ≡ some type
    → account_type id after ≡ some type

abbrev type_of : Option AccountRow → Option String
type_of o = elim o [ none ↦ none | some r ↦ some r.type ]

kept_accounts : (before after : Db) → after.accounts ≡ before.accounts → KeepsAccounts before after
kept_accounts before after same id type h =
    ap (λ rows. type_of (find (λ (r : AccountRow). eqb r.id id) rows)) same ∙ h

insert_account-KeepsAccounts :
    (conn : Conn) (a : NewAccount) → Of KeepsAccounts (insert_account conn a)
unfolding insert_account
insert_account-KeepsAccounts conn a db n db' h id type k =
    let row = account_row conn a db in
    let is_it = λ (r : AccountRow). eqb r.id id in
    let made : db'.accounts ≡ db.accounts ++ row ∷ [] = ground arith in
    elim (Option-cases (find is_it db.accounts)) [
      | inl missing ↦ absurd (ground arith)
      | inr (r, found) ↦
          ap (λ rows. type_of (find is_it rows)) made
          ∙ ap type_of (find-append_some is_it db.accounts (row ∷ []) found)
          ∙ ap type_of (sym found)
          ∙ k
    ]

accounts-IsFrame : IsFrame KeepsAccounts
unfolding insert_audit insert_entry insert_line insert_fund insert_user update_users
accounts-IsFrame = record {
  same = λ db id type h. h;
  both = λ before middle after p q id type h. q id type (p id type h);
  audit = λ conn user action type id detail db u db' h. kept_accounts db db' (ground arith);
  entry = λ conn date memo user at source reverses db id db' h. kept_accounts db db' (ground arith);
  line = λ conn id l db u db' h. kept_accounts db db' (ground arith);
  account = insert_account-KeepsAccounts;
  fund = λ conn f db id db' h. kept_accounts db db' (ground arith);
  user =
      λ conn username hash role active must_change db id db' h. kept_accounts db db' (ground arith);
  role = λ id role valid db n db' h. kept_accounts db db' (ground arith);
  dismissal = λ id db n db' h. kept_accounts db db' (ground arith);
  backup = λ before row.
      kept_accounts before (record before { backup_runs = before.backup_runs ++ row ∷ [] }) refl;
}

Step-KeepsAccounts : {before after : Db} → Step before after → KeepsAccounts before after
Step-KeepsAccounts =
    Step-framed_with_locks KeepsAccounts accounts-IsFrame
      (λ date user at db u db' h. kept_accounts db db' (ground arith))

-- The lines of before stay classified when the accounts stay.
apart-AllClassified :
    (before after : Db)
    → SameJournal before after
    → KeepsAccounts before after
    → AllClassified before
    → AllClassified after
apart-AllClassified before after same accounts h =
    subst (All (λ r. IsClassified after (line_of r))) (sym same.lines) (
      All-weaken (λ r. IsClassified before (line_of r)) (λ r. IsClassified after (line_of r))
        (λ r (type, known, has). (type, accounts r.account_id type known, has)) before.lines h)

module _ {A B : Type 0} where
  All-map : (P : B → Type 0) (f : A → B) (xs : List A) → All P (map f xs) → All (λ x. P (f x)) xs
  All-map P f [] h = tt
  All-map P f (x ∷ xs) h = (h.0, All-map P f xs h.1)

-- Lines that are classified and then written.
written-AllClassified :
    (conn : Conn) (d : Draft) (before : Db) (id : ℕ) (after : Db)
    → IsWritten conn d before id after
    → All (IsClassified before) d.lines
    → AllClassified before
    → AllClassified after
written-AllClassified conn d before id after w new h =
    let added =
      All-map (IsClassified before) line_of w.added
        (subst (All (IsClassified before)) (sym w.bodies) new) in
    subst AllClassified (sym w.result)
      (All-append (λ r. IsClassified before (line_of r)) before.lines w.added h added)

post-AllClassified :
    (conn : Conn) (e : NewEntry) (s : State)
    → AllClassified s.db
    → AllClassified (post_journal_entry conn e s).1.db
post-AllClassified conn e s h =
    elim (Result-cases (post_journal_entry conn e s).0 (post_journal_entry conn e s).1) [
      | inl (x, failed) ↦ subst AllClassified (sym (post_atomic conn e s failed)) h
      | inr (id, posted) ↦
          let (written, accepted) = post_journal_entry-eq-ok conn e s posted in
          written-AllClassified conn (posting conn e) s.db id _ written accepted.classified h
    ]

-- The lines of a reversal have the accounts and the categories of the original's.
swapped-IsClassified :
    (db : Db) (original_id : ℕ) (rows : List LineRow)
    → All (λ r. IsClassified db (line_of r)) rows
    → All
        (IsClassified db)
        (map swapped (map scan_line (select (λ (r : LineRow). eqb r.entry_id original_id) rows)))
swapped-IsClassified db original_id [] h = tt
swapped-IsClassified db original_id (r ∷ rows) h = elim (Bool-cases (eqb r.entry_id original_id)) [
  | inl hit ↦ rw hit (h.0, swapped-IsClassified db original_id rows h.1)
  | inr other ↦ rw other (swapped-IsClassified db original_id rows h.1)
]

reverse-AllClassified :
    (conn : Conn) (original_id : ℕ) (reason : String) (posted_by : ℕ) (s : State)
    → AllClassified s.db
    → AllClassified (transact (reverse_journal_entry conn original_id reason posted_by) s).1.db
reverse-AllClassified conn original_id reason posted_by s h =
    let body = reverse_journal_entry conn original_id reason posted_by in
    elim (Result-cases (transact body s).0 (transact body s).1) [
      | inl (x, failed) ↦ subst AllClassified (sym (transact_atomic body s failed)) h
      | inr (id, made) ↦
          let (u, ran, kept) = transact-eq-ok body s made in
          let (dates, found, filled, written) =
            reverse_journal_entry-eq-ok conn original_id reason posted_by (tick s) ran in
          subst AllClassified (sym kept) (
            written-AllClassified conn (reversing conn original_id reason posted_by s.db dates) s.db
              id u.db written (swapped-IsClassified s.db original_id s.db.lines h) h)
    ]

Step-AllClassified :
    {before after : Db} → Step before after → AllClassified before → AllClassified after
Step-AllClassified =
    Step-by (λ before after. AllClassified before → AllClassified after)
      (λ conn e s fits. post-AllClassified conn e s) reverse-AllClassified
      (λ before after st same. apart-AllClassified before after same (Step-KeepsAccounts st))

-- Through any history of postings whose totals fit an int64, reversals, period locks, new accounts
-- and funds, writes of users and scheduled backups, failing or not, and whether or not the
-- connections enforce foreign keys: if the account of every line exists and every line of an
-- expense account has a category, that stays so.
pub Reach-AllClassified :
    {before after : Db} → AllClassified before → Reach before after → AllClassified after
Reach-AllClassified h here = h
Reach-AllClassified h (next r st) = Step-AllClassified st (Reach-AllClassified h r)
