-- ===== src/Ledger/Books/Consistent.antt =====
-- What the statements of a history do to the rows of the tables.
use nonprofit_ledger.Prelude.{ℕ, String, ◌≡◌, refl, sym, subst, Option, [], ◌∷◌, ◌++◌, map, arith}
use nonprofit_ledger.Prelude.Distinct.{IsApart}
use nonprofit_ledger.Schema.{Db, UserRow, EntryRow, LineRow}
use nonprofit_ledger.Exec.{Conn, done}
use nonprofit_ledger.Audit.{insert_audit}
use nonprofit_ledger.Ledger.Entry.{NewLine, insert_entry, insert_line, entry_row, line_row}
use nonprofit_ledger.Ledger.Period.{upsert_period}
use nonprofit_ledger.Ledger.Accounts.{NewAccount, insert_account}
use nonprofit_ledger.Ledger.Funds.{NewFund, insert_fund}
use nonprofit_ledger.Users.{insert_user, update_users, with_role, inactive}
use nonprofit_ledger.Ledger.Frame.{Of}
use nonprofit_ledger.Ledger.Books.Rows.{
  IsStaff, IsChart, IsFundList, IsConsistent, ids-IsApart, hired-IsStaff, opened-IsChart,
  opened-IsFundList, updated-IsStaff,
}
use nonprofit_ledger.Ledger.Books.History.{Reach}
use nonprofit_ledger.Ledger.Books.Framed.{IsFrame, Reach-framed}

-- What is true of the tables stays true.
abbrev StaysConsistent : Db → Db → Type 0
StaysConsistent before after = IsConsistent before → IsConsistent after

module _ (before after : Db) where
  -- A statement on tables other than these leaves them as they are.
  unrelated :
      after.users ≡ before.users
      → after.accounts ≡ before.accounts
      → after.funds ≡ before.funds
      → after.entries ≡ before.entries
      → after.lines ≡ before.lines
      → StaysConsistent before after
  unrelated u a f e l k = record {
    users = subst IsStaff (sym u) k.users;
    accounts = subst IsChart (sym a) k.accounts;
    funds = subst IsFundList (sym f) k.funds;
    entries = subst (λ m. IsApart (map (λ (r : EntryRow). r.id) m)) (sym e) k.entries;
    lines = subst (λ m. IsApart (map (λ (r : LineRow). r.id) m)) (sym l) k.lines;
  }

insert_entry-StaysConsistent :
    (conn : Conn) (date memo : String) (user : ℕ) (at source : String) (reverses : Option ℕ)
    → Of StaysConsistent (insert_entry conn date memo user at source reverses)
unfolding insert_entry
insert_entry-StaysConsistent conn date memo user at source reverses db id db' h k =
    let row = entry_row conn date memo user at source reverses db in
    let made : db' ≡ record db { entries = db.entries ++ row ∷ [] } = ground arith in
    subst IsConsistent (sym made) (record {
      users = k.users;
      accounts = k.accounts;
      funds = k.funds;
      entries = ids-IsApart (λ (r : EntryRow). r.id) conn db.entries row refl k.entries;
      lines = k.lines;
    })

insert_line-StaysConsistent :
    (conn : Conn) (id : ℕ) (l : NewLine) → Of StaysConsistent (insert_line conn id l)
unfolding insert_line
insert_line-StaysConsistent conn id l db u db' h k =
    let row = line_row conn id l db in
    let made : db' ≡ record db { lines = db.lines ++ row ∷ [] } = ground arith in
    subst IsConsistent (sym made) (record {
      users = k.users;
      accounts = k.accounts;
      funds = k.funds;
      entries = k.entries;
      lines = ids-IsApart (λ (r : LineRow). r.id) conn db.lines row refl k.lines;
    })

insert_user-StaysConsistent :
    (conn : Conn) (username hash role : String) (active must_change : ℕ)
    → Of StaysConsistent (insert_user conn username hash role active must_change)
unfolding insert_user
insert_user-StaysConsistent conn username hash role active must_change db id db' h k = record {
  users = hired-IsStaff conn username hash role active must_change db db' h k.users;
  accounts = subst IsChart (ground arith) k.accounts;
  funds = subst IsFundList (ground arith) k.funds;
  entries = subst IsApart (ground arith) k.entries;
  lines = subst IsApart (ground arith) k.lines;
}

insert_account-StaysConsistent :
    (conn : Conn) (a : NewAccount) → Of StaysConsistent (insert_account conn a)
unfolding insert_account
insert_account-StaysConsistent conn a db id db' h k = record {
  users = subst IsStaff (ground arith) k.users;
  accounts = opened-IsChart conn a db db' h k.accounts;
  funds = subst IsFundList (ground arith) k.funds;
  entries = subst IsApart (ground arith) k.entries;
  lines = subst IsApart (ground arith) k.lines;
}

insert_fund-StaysConsistent : (conn : Conn) (f : NewFund) → Of StaysConsistent (insert_fund conn f)
unfolding insert_fund
insert_fund-StaysConsistent conn f db id db' h k = record {
  users = subst IsStaff (ground arith) k.users;
  accounts = subst IsChart (ground arith) k.accounts;
  funds = opened-IsFundList conn f db db' h k.funds;
  entries = subst IsApart (ground arith) k.entries;
  lines = subst IsApart (ground arith) k.lines;
}

update_users-StaysConsistent :
    (f : UserRow → UserRow) (user_id : ℕ)
    → ((db db' : Db) (n : ℕ)
        → update_users f user_id db ≡ done n db'
        → IsStaff db.users
        → IsStaff db'.users)
    → Of StaysConsistent (update_users f user_id)
unfolding update_users
update_users-StaysConsistent f user_id kept db n db' h k = record {
  users = kept db db' n h k.users;
  accounts = subst IsChart (ground arith) k.accounts;
  funds = subst IsFundList (ground arith) k.funds;
  entries = subst IsApart (ground arith) k.entries;
  lines = subst IsApart (ground arith) k.lines;
}

insert_audit-StaysConsistent :
    (conn : Conn) (user : ℕ) (action type : String) (id : ℕ) (detail : String)
    → Of StaysConsistent (insert_audit conn user action type id detail)
unfolding insert_audit
insert_audit-StaysConsistent conn user action type id detail db u db' h =
    unrelated db db' (ground arith) (ground arith) (ground arith) (ground arith) (ground arith)

rows-IsFrame : IsFrame StaysConsistent
rows-IsFrame = record {
  same = λ db k. k;
  both = λ before middle after p q k. q (p k);
  audit = insert_audit-StaysConsistent;
  entry = insert_entry-StaysConsistent;
  line = insert_line-StaysConsistent;
  account = insert_account-StaysConsistent;
  fund = insert_fund-StaysConsistent;
  user = insert_user-StaysConsistent;
  role = λ user_id role valid.
      update_users-StaysConsistent (with_role role) user_id
        (updated-IsStaff (with_role role) user_id (λ r. refl) (λ r. refl) (λ r known. valid));
  dismissal = λ user_id.
      update_users-StaysConsistent inactive user_id
        (updated-IsStaff inactive user_id (λ r. refl) (λ r. refl) (λ r known. known));
  backup = λ before row. unrelated before _ refl refl refl refl refl;
}

upsert_period-StaysConsistent :
    (date : String) (user : ℕ) (at : String) → Of StaysConsistent (upsert_period date user at)
upsert_period-StaysConsistent date user at db u db' h =
    unrelated db db' (ground arith) (ground arith) (ground arith) (ground arith) (ground arith)

-- Through any history of postings whose totals fit an int64, reversals, period locks, new accounts
-- and funds, writes of users and scheduled backups, failing or not, ids stay distinct within the
-- tables of users, accounts, funds, entries and lines, usernames and the codes of accounts and of
-- funds stay distinct, and each user has a valid role, each account a valid type, and each fund a
-- valid class.
pub Reach-IsConsistent :
    {before after : Db} → IsConsistent before → Reach before after → IsConsistent after
Reach-IsConsistent h r = Reach-framed StaysConsistent rows-IsFrame upsert_period-StaysConsistent r h
