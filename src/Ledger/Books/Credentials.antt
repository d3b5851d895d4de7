-- ===== src/Ledger/Books/Credentials.antt =====
-- What of a user no function of the program changes.
use nonprofit_ledger.Prelude.{
  ℕ, String, ◌≡◌, refl, sym, ◌∙◌, ap, List, [], ◌∷◌, ◌++◌, map, map-append, append-nil,
  append_assoc, arith,
}
use nonprofit_ledger.Schema.{Db, UserRow}
use nonprofit_ledger.Exec.{Conn}
use nonprofit_ledger.Audit.{insert_audit}
use nonprofit_ledger.Ledger.Frame.{Of}
use nonprofit_ledger.Ledger.Entry.{insert_entry, insert_line}
use nonprofit_ledger.Ledger.Accounts.{insert_account}
use nonprofit_ledger.Ledger.Funds.{insert_fund}
use nonprofit_ledger.Users.{user_row, insert_user, update_users, with_role, inactive}
use nonprofit_ledger.Ledger.Books.History.{Reach}
use nonprofit_ledger.Ledger.Books.Framed.{IsFrame, Reach-framed}
use nonprofit_ledger.Ledger.Books.Rows.{updated, updated_keeps}

-- A row of a user without the role and the activity.
abbrev pub credentials : UserRow → UserRow
credentials r = record r { role = ""; active = 0 }

-- No user is gone, and none has another id, name, password hash or flag; new users are at the end.
pub record KeepsCredentials (before after : Db) : Type 0 where
  pub more : List UserRow
  pub grown : map credentials after.users ≡ map credentials before.users ++ more

kept-KeepsCredentials :
    (before after : Db)
    → map credentials after.users ≡ map credentials before.users
    → KeepsCredentials before after
kept-KeepsCredentials before after h = record {
  more = [];
  grown = h ∙ sym (append-nil (map credentials before.users));
}

same-KeepsCredentials :
    (before after : Db) → after.users ≡ before.users → KeepsCredentials before after
same-KeepsCredentials before after h = kept-KeepsCredentials before after (ap (map credentials) h)

insert_user-KeepsCredentials :
    (conn : Conn) (username hash role : String) (active must_change : ℕ)
    → Of KeepsCredentials (insert_user conn username hash role active must_change)
unfolding insert_user
insert_user-KeepsCredentials conn username hash role active must_change db id db' h =
    let row = user_row conn username hash role active must_change db in
    let made : db'.users ≡ db.users ++ row ∷ [] = ground arith in
    record {
      more = credentials row ∷ [];
      grown = ap (map credentials) made ∙ map-append credentials db.users (row ∷ []);
    }

update_users-KeepsCredentials :
    (f : UserRow → UserRow) (user_id : ℕ)
    → ((r : UserRow) → credentials (f r) ≡ credentials r)
    → Of KeepsCredentials (update_users f user_id)
unfolding update_users
update_users-KeepsCredentials f user_id same db n db' h =
    let made : db'.users ≡ map (updated f user_id) db.users = cc in
    kept-KeepsCredentials db db'
      (ap (map credentials) made ∙ updated_keeps f user_id credentials db.users same)

credentials-IsFrame : IsFrame KeepsCredentials
unfolding insert_audit insert_entry insert_line insert_account insert_fund
credentials-IsFrame = record {
  same = λ db. same-KeepsCredentials db db refl;
  both = λ before middle after p q. record {
    more = p.more ++ q.more;
    grown =
        q.grown
        ∙ ap (λ (m : List UserRow). m ++ q.more) p.grown
        ∙ append_assoc (map credentials before.users) p.more q.more;
  };
  audit = λ conn user action type id detail db u db' h. same-KeepsCredentials db db' (ground arith);
  entry = λ conn date memo user at source reverses db id db' h.
      same-KeepsCredentials db db' (ground arith);
  line = λ conn id l db u db' h. same-KeepsCredentials db db' (ground arith);
  account = λ conn a db id db' h. same-KeepsCredentials db db' (ground arith);
  fund = λ conn f db id db' h. same-KeepsCredentials db db' (ground arith);
  user = insert_user-KeepsCredentials;
  role = λ user_id role valid. update_users-KeepsCredentials (with_role role) user_id (λ r. refl);
  dismissal = λ user_id. update_users-KeepsCredentials inactive user_id (λ r. refl);
  backup = λ before row. same-KeepsCredentials before _ refl;
}

-- Through any history of postings whose totals fit an int64, reversals, period locks, new accounts
-- and funds, writes of users and scheduled backups, failing or not, no user is deleted, and none
-- gets another id, name, password hash or must_change_password flag; new users are added at the end
-- of the table.
pub Reach-KeepsCredentials :
    {before after : Db} → Reach before after → KeepsCredentials before after
Reach-KeepsCredentials =
    Reach-framed KeepsCredentials credentials-IsFrame
      (λ date user at db u db' h. same-KeepsCredentials db db' (ground arith))
