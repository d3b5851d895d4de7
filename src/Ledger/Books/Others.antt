-- ===== src/Ledger/Books/Others.antt =====
-- The writes of the program that leave the journal alone.
use nonprofit_ledger.Prelude.{
  ℕ, String, ◌≡◌, refl, ◌∙◌, ap, subst, sym, All, Option, List, map, arith,
}
use nonprofit_ledger.Schema.{Db, LineRow, UserRow}
use nonprofit_ledger.Exec.{Conn, Exec, Error}
use nonprofit_ledger.Auth.Password.{Crypto}
use nonprofit_ledger.Database.{Sqlite}
use nonprofit_ledger.Disk.{Host}
use nonprofit_ledger.Backup.{Clock, run_scheduled}
use nonprofit_ledger.Server.{bootstrap_first_admin}
use nonprofit_ledger.Ledger.Frame.Startup.{bootstrap_first_admin-Keeps, run_scheduled-Keeps}
use nonprofit_ledger.Exec.Keeps.{Keeps}
use nonprofit_ledger.Audit
use nonprofit_ledger.Ledger.Period.{lock_period}
use nonprofit_ledger.Ledger.Accounts.{NewAccount, insert_account, create_account}
use nonprofit_ledger.Ledger.Funds.{NewFund, insert_fund, create_fund}
use nonprofit_ledger.Users.{
  insert_user, create_user, update_users, with_role, inactive, update_role, deactivate,
}
use nonprofit_ledger.Ledger.Frame.{Of, lock_period-Keeps}
use nonprofit_ledger.Ledger.Frame.Registers.{
  create_account-Keeps, create_fund-Keeps, create_user-Keeps, update_role-Keeps, deactivate-Keeps,
}
use nonprofit_ledger.Ledger.Entry.Lines.{line_of}
use nonprofit_ledger.Ledger.Journal.{journal}
use nonprofit_ledger.Ledger.Totals.{net}
use nonprofit_ledger.Ledger.Books.{IsBalanced, IsBooks}

-- Neither table of the journal has changed.
pub record SameJournal (before after : Db) : Type 0 where
  pub entries : after.entries ≡ before.entries
  pub lines : after.lines ≡ before.lines

pub same-SameJournal : (db : Db) → SameJournal db db
same-SameJournal db = record { entries = refl; lines = refl }

pub both-SameJournal :
    (before middle after : Db)
    → SameJournal before middle
    → SameJournal middle after
    → SameJournal before after
both-SameJournal before middle after p q = record {
  entries = q.entries ∙ p.entries;
  lines = q.lines ∙ p.lines;
}

-- A call that leaves the journal alone, for every state that it may start from.
abbrev pub IsApart : {A : Type 0} → Exec A → Type 0
IsApart = Keeps SameJournal same-SameJournal both-SameJournal

insert_audit-SameJournal :
    (conn : Conn) (user : ℕ) (action type : String) (id : ℕ) (detail : String)
    → Of SameJournal (Audit.insert_audit conn user action type id detail)
unfolding Audit.insert_audit
insert_audit-SameJournal conn user action type id detail db u db' h = ground arith

pub lock_period-SameJournal :
    (conn : Conn) (date : String) (user : ℕ) → IsApart (lock_period conn date user)
lock_period-SameJournal =
    lock_period-Keeps SameJournal same-SameJournal both-SameJournal insert_audit-SameJournal
      (λ date user at db u db' h. ground arith)

insert_account-SameJournal : (conn : Conn) (a : NewAccount) → Of SameJournal (insert_account conn a)
unfolding insert_account
insert_account-SameJournal conn a db id db' h = ground arith

pub create_account-SameJournal : (conn : Conn) (a : NewAccount) → IsApart (create_account conn a)
create_account-SameJournal conn a =
    create_account-Keeps SameJournal same-SameJournal both-SameJournal conn a
      (insert_account-SameJournal conn a)

insert_fund-SameJournal : (conn : Conn) (f : NewFund) → Of SameJournal (insert_fund conn f)
unfolding insert_fund
insert_fund-SameJournal conn f db id db' h = ground arith

pub create_fund-SameJournal : (conn : Conn) (f : NewFund) → IsApart (create_fund conn f)
create_fund-SameJournal conn f =
    create_fund-Keeps SameJournal same-SameJournal both-SameJournal conn f
      (insert_fund-SameJournal conn f)

insert_user-SameJournal :
    (conn : Conn) (username password_hash role : String) (active must_change : ℕ)
    → Of SameJournal (insert_user conn username password_hash role active must_change)
unfolding insert_user
insert_user-SameJournal conn username password_hash role active must_change db id db' h =
    ground arith

pub create_user-SameJournal :
    (conn : Conn) (username password_hash role : String)
    → IsApart (create_user conn username password_hash role)
create_user-SameJournal conn username password_hash role =
    create_user-Keeps SameJournal same-SameJournal both-SameJournal conn username password_hash role
      (insert_user-SameJournal conn username password_hash role 1 0)

update_users-SameJournal :
    (f : UserRow → UserRow) (user_id : ℕ) → Of SameJournal (update_users f user_id)
unfolding update_users
update_users-SameJournal f user_id db n db' h = ground arith

pub update_role-SameJournal : (user_id : ℕ) (role : String) → IsApart (update_role user_id role)
update_role-SameJournal user_id role =
    update_role-Keeps SameJournal same-SameJournal both-SameJournal user_id role
      (λ valid. update_users-SameJournal (with_role role) user_id)

pub deactivate-SameJournal : (user_id : ℕ) → IsApart (deactivate user_id)
deactivate-SameJournal user_id =
    deactivate-Keeps SameJournal same-SameJournal both-SameJournal user_id
      (update_users-SameJournal inactive user_id)

pub bootstrap_first_admin-SameJournal :
    (conn : Conn) (crypto : Crypto) (random salt : Option (List ℕ))
    → IsApart (bootstrap_first_admin conn crypto random salt)
bootstrap_first_admin-SameJournal conn crypto random salt =
    bootstrap_first_admin-Keeps SameJournal same-SameJournal both-SameJournal conn crypto random
      salt (λ hash. insert_user-SameJournal conn "admin" hash "admin" 1 1)

pub run_scheduled-SameJournal :
    (conn : Conn) (text : Error → String) (sqlite : Sqlite) (dir : String) (keep_n : ℕ)
    (clock : Clock) (h : Host)
    → SameJournal h.state.db (run_scheduled conn text sqlite dir keep_n clock h).1.state.db
run_scheduled-SameJournal =
    run_scheduled-Keeps SameJournal same-SameJournal both-SameJournal
      (λ before row. record { entries = refl; lines = refl })

pub SameJournal-journal :
    {before after : Db} → SameJournal before after → journal after ≡ journal before
unfolding journal
SameJournal-journal same = rw (same.entries, same.lines) refl

pub SameJournal-IsBooks :
    {before after : Db} → SameJournal before after → IsBooks before → IsBooks after
SameJournal-IsBooks same b = record {
  sound = rw (same.entries, same.lines) b.sound;
  balanced = subst (All IsBalanced) (sym (SameJournal-journal same)) b.balanced;
  total = ap (λ (m : List LineRow). net (map line_of m)) same.lines ∙ b.total;
}
