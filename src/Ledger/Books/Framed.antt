-- ===== src/Ledger/Books/Framed.antt =====
-- A relation that holds of each statement holds of a history from its start to its end.
use nonprofit_ledger.Prelude.{
  ℕ, String, ◌≡◌, Bool, true, false, not, ◌&&◌, Option, arith, refl, [], ◌∷◌, ◌++◌,
}
use nonprofit_ledger.Schema.{Db, BackupRow}
use nonprofit_ledger.Exec.{Conn}
use nonprofit_ledger.Audit.{insert_audit}
use nonprofit_ledger.Ledger.Entry.{NewLine, insert_entry, insert_line}
use nonprofit_ledger.Ledger.Period.{upsert_period}
use nonprofit_ledger.Ledger.Accounts.{NewAccount, insert_account}
use nonprofit_ledger.Ledger.Funds.{NewFund, insert_fund}
use nonprofit_ledger.Users.{valid_role, insert_user, update_users, with_role, inactive}
use nonprofit_ledger.Ledger.Frame.{
  Of, post_journal_entry-Keeps, reverse_journal_entry-Keeps, lock_period-Keeps,
}
use nonprofit_ledger.Ledger.Frame.Registers.{
  create_account-Keeps, create_fund-Keeps, create_user-Keeps, update_role-Keeps, deactivate-Keeps,
}
use nonprofit_ledger.Ledger.Frame.Startup.{bootstrap_first_admin-Keeps, run_scheduled-Keeps}
use nonprofit_ledger.Ledger.Books.History.{
  Step, post, reverse, lock, open_account, open_fund, add_user, change_role, dismiss, first_admin,
  back_up, Reach, here, next,
}

-- What a relation has to hold of: all statements but the one that moves the lock.
pub record IsFrame (R : Db → Db → Type 0) : Type 0 where
  pub same : (db : Db) → R db db
  pub both : (before middle after : Db) → R before middle → R middle after → R before after
  pub audit :
      (conn : Conn) (user : ℕ) (action type : String) (id : ℕ) (detail : String)
      → Of R (insert_audit conn user action type id detail)
  pub entry :
      (conn : Conn) (date memo : String) (user : ℕ) (at source : String) (reverses : Option ℕ)
      → Of R (insert_entry conn date memo user at source reverses)
  pub line : (conn : Conn) (id : ℕ) (l : NewLine) → Of R (insert_line conn id l)
  pub account : (conn : Conn) (a : NewAccount) → Of R (insert_account conn a)
  pub fund : (conn : Conn) (f : NewFund) → Of R (insert_fund conn f)
  pub user :
      (conn : Conn) (username password_hash role : String) (active must_change : ℕ)
      → Of R (insert_user conn username password_hash role active must_change)
  pub role :
      (user_id : ℕ) (role : String)
      → valid_role role ≡ true
      → Of R (update_users (with_role role) user_id)
  pub dismissal : (user_id : ℕ) → Of R (update_users inactive user_id)
  pub backup :
      (before : Db) (row : BackupRow)
      → R before (record before { backup_runs = before.backup_runs ++ row ∷ [] })

abbrev pub is_lock : {before after : Db} → Step before after → Bool
is_lock (post conn e s fits) = false
is_lock (reverse conn original_id reason posted_by s) = false
is_lock (lock conn date user s) = true
is_lock (open_account conn a s) = false
is_lock (open_fund conn f s) = false
is_lock (add_user conn name hash role s) = false
is_lock (change_role user_id role s) = false
is_lock (dismiss user_id s) = false
is_lock (first_admin conn crypto random salt s) = false
is_lock (back_up conn text sqlite dir keep_n clock h) = false

-- Whether no step of a history locks a period.
abbrev pub without_locks : {before after : Db} → Reach before after → Bool
without_locks here = true
without_locks (next r st) = not (is_lock st) && without_locks r

module _ (R : Db → Db → Type 0) (frame : IsFrame R) where
  Step-framed : {before after : Db} (st : Step before after) → is_lock st ≡ false → R before after
  Step-framed (post conn e s fits) free =
      post_journal_entry-Keeps R frame.same frame.both frame.audit frame.entry frame.line conn e s
  Step-framed (reverse conn original_id reason posted_by s) free =
      reverse_journal_entry-Keeps R frame.same frame.both frame.audit frame.entry frame.line conn
        original_id reason posted_by s
  Step-framed (lock conn date user s) free = cc
  Step-framed (open_account conn a s) free =
      create_account-Keeps R frame.same frame.both conn a (frame.account conn a) s
  Step-framed (open_fund conn f s) free =
      create_fund-Keeps R frame.same frame.both conn f (frame.fund conn f) s
  Step-framed (add_user conn name hash role s) free =
      create_user-Keeps R frame.same frame.both conn name hash role
        (frame.user conn name hash role 1 0) s
  Step-framed (change_role user_id role s) free =
      update_role-Keeps R frame.same frame.both user_id role (frame.role user_id role) s
  Step-framed (dismiss user_id s) free =
      deactivate-Keeps R frame.same frame.both user_id (frame.dismissal user_id) s
  Step-framed (first_admin conn crypto random salt s) free =
      bootstrap_first_admin-Keeps R frame.same frame.both conn crypto random salt
        (λ hash. frame.user conn "admin" hash "admin" 1 1) s
  Step-framed (back_up conn text sqlite dir keep_n clock h) free =
      run_scheduled-Keeps R frame.same frame.both frame.backup conn text sqlite dir keep_n clock h

  pub Reach-framed_without_locks :
      {before after : Db} (r : Reach before after) → without_locks r ≡ true → R before after
  Reach-framed_without_locks {before} here free = frame.same before
  Reach-framed_without_locks {before} {after} (next {middle} r st) free =
      frame.both before middle after (Reach-framed_without_locks r (ground arith))
        (Step-framed st (ground arith))

  module _
      (period : (date : String) (user : ℕ) (at : String) → Of R (upsert_period date user at)) where
    pub Step-framed_with_locks : {before after : Db} → Step before after → R before after
    Step-framed_with_locks (lock conn date user s) =
        lock_period-Keeps R frame.same frame.both frame.audit period conn date user s
    Step-framed_with_locks (post conn e s fits) = Step-framed (post conn e s fits) refl
    Step-framed_with_locks (reverse conn original_id reason posted_by s) =
        Step-framed (reverse conn original_id reason posted_by s) refl
    Step-framed_with_locks (open_account conn a s) = Step-framed (open_account conn a s) refl
    Step-framed_with_locks (open_fund conn f s) = Step-framed (open_fund conn f s) refl
    Step-framed_with_locks (add_user conn name hash role s) =
        Step-framed (add_user conn name hash role s) refl
    Step-framed_with_locks (change_role user_id role s) =
        Step-framed (change_role user_id role s) refl
    Step-framed_with_locks (dismiss user_id s) = Step-framed (dismiss user_id s) refl
    Step-framed_with_locks (first_admin conn crypto random salt s) =
        Step-framed (first_admin conn crypto random salt s) refl
    Step-framed_with_locks (back_up conn text sqlite dir keep_n clock h) =
        Step-framed (back_up conn text sqlite dir keep_n clock h) refl

    pub Reach-framed : {before after : Db} → Reach before after → R before after
    Reach-framed {before} here = frame.same before
    Reach-framed {before} {after} (next {middle} r st) =
        frame.both before middle after (Reach-framed r) (Step-framed_with_locks st)
