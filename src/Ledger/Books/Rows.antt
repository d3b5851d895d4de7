-- ===== src/Ledger/Books/Rows.antt =====
-- The rows of the tables over histories: what the UNIQUE and CHECK clauses of the migrations and the
-- tests of the Go code keep true of users, accounts, funds and the journal.
use nonprofit_ledger.Prelude.{
  ℕ, String, ◌≡◌, refl, sym, ◌∙◌, ap, ap₂, subst, true, false, eqb, any, contains, inl, inr,
  Bool-cases, if◌then◌else◌, All, All-append, List, [], ◌∷◌, ◌++◌, ◌==◌, map, map-append, arith,
}
use nonprofit_ledger.Prelude.Sort.{Nodup}
use nonprofit_ledger.Prelude.Distinct.{append-Nodup, any-has, IsApart, append-IsApart}
use nonprofit_ledger.Schema.{Db, UserRow, AccountRow, FundRow, entry_ids, line_ids}
use nonprofit_ledger.Exec.Inversion.{new_id}
use nonprofit_ledger.Exec.{Conn, done}
use nonprofit_ledger.Ledger.Accounts.{
  NewAccount, valid_account_type, account_type_check, account_row, insert_account,
}
use nonprofit_ledger.Ledger.Funds.{
  NewFund, valid_net_asset_class, net_asset_class_check, fund_row, insert_fund,
}
use nonprofit_ledger.Users.{valid_role, role_check, user_row, insert_user, update_users}

-- No two users share an id or a name, and each role is one of the three.
pub record IsStaff (rows : List UserRow) : Type 0 where
  pub ids : IsApart (map (λ (r : UserRow). r.id) rows)
  pub usernames : Nodup (map (λ (r : UserRow). r.username) rows)
  pub roles : All (λ (r : UserRow). valid_role r.role ≡ true) rows

-- No two accounts share an id or a code, and each type is one of the five.
pub record IsChart (rows : List AccountRow) : Type 0 where
  pub ids : IsApart (map (λ (r : AccountRow). r.id) rows)
  pub codes : Nodup (map (λ (r : AccountRow). r.code) rows)
  pub types : All (λ (r : AccountRow). valid_account_type r.type ≡ true) rows

-- No two funds share an id or a code, and each class is one of the two.
pub record IsFundList (rows : List FundRow) : Type 0 where
  pub ids : IsApart (map (λ (r : FundRow). r.id) rows)
  pub codes : Nodup (map (λ (r : FundRow). r.code) rows)
  pub classes : All (λ (r : FundRow). valid_net_asset_class r.net_asset_class ≡ true) rows

-- The same of all tables; no two entries and no two lines share an id.
pub record IsConsistent (db : Db) : Type 0 where
  pub users : IsStaff db.users
  pub accounts : IsChart db.accounts
  pub funds : IsFundList db.funds
  pub entries : IsApart (entry_ids db)
  pub lines : IsApart (line_ids db)

module _ {A : Type 0} (id : A → ℕ) (conn : Conn) where
  pub ids-IsApart :
      (rows : List A) (row : A)
      → id row ≡ conn.row_id (map id rows)
      → IsApart (map id rows)
      → IsApart (map id (rows ++ row ∷ []))
  ids-IsApart rows row e h = subst IsApart (sym (map-append id rows (row ∷ []))) (
      append-IsApart (map id rows) (id row) h
        (ap (λ i. contains i (map id rows)) e ∙ new_id conn (map id rows)))

module _ {A : Type 0} (text : A → String) where
  texts-Nodup :
      (rows : List A) (row : A)
      → any (λ r. text r == text row) rows ≡ false
      → Nodup (map text rows)
      → Nodup (map text (rows ++ row ∷ []))
  texts-Nodup rows row free h =
      subst Nodup (sym (map-append text rows (row ∷ [])))
        (append-Nodup (map text rows) (text row) h (sym (any-has text (text row) rows) ∙ free))

-- A new user, whom the constraints have let in.
pub hired-IsStaff :
    (conn : Conn) (username hash role : String) (active must_change : ℕ) (db db' : Db) {id : ℕ}
    → insert_user conn username hash role active must_change db ≡ done id db'
    → IsStaff db.users
    → IsStaff db'.users
unfolding insert_user role_check valid_role
hired-IsStaff conn username hash role active must_change db db' h k =
    let row = user_row conn username hash role active must_change db in
    let known : valid_role role ≡ true = ground arith in
    let free : any (λ (r : UserRow). r.username == username) db.users ≡ false = ground arith in
    let made : db'.users ≡ db.users ++ row ∷ [] = ground arith in
    subst IsStaff (sym made) (record {
      ids = ids-IsApart (λ (r : UserRow). r.id) conn db.users row refl k.ids;
      usernames = texts-Nodup (λ (r : UserRow). r.username) db.users row free k.usernames;
      roles = All-append _ db.users (row ∷ []) k.roles (known, tt);
    })

pub opened-IsChart :
    (conn : Conn) (a : NewAccount) (db db' : Db) {id : ℕ}
    → insert_account conn a db ≡ done id db'
    → IsChart db.accounts
    → IsChart db'.accounts
unfolding insert_account account_type_check valid_account_type
opened-IsChart conn a db db' h k =
    let row = account_row conn a db in
    let known : valid_account_type a.type ≡ true = ground arith in
    let free : any (λ (r : AccountRow). r.code == a.code) db.accounts ≡ false = ground arith in
    let made : db'.accounts ≡ db.accounts ++ row ∷ [] = ground arith in
    subst IsChart (sym made) (record {
      ids = ids-IsApart (λ (r : AccountRow). r.id) conn db.accounts row refl k.ids;
      codes = texts-Nodup (λ (r : AccountRow). r.code) db.accounts row free k.codes;
      types = All-append _ db.accounts (row ∷ []) k.types (known, tt);
    })

pub opened-IsFundList :
    (conn : Conn) (f : NewFund) (db db' : Db) {id : ℕ}
    → insert_fund conn f db ≡ done id db'
    → IsFundList db.funds
    → IsFundList db'.funds
unfolding insert_fund net_asset_class_check valid_net_asset_class
opened-IsFundList conn f db db' h k =
    let row = fund_row conn f db in
    let known : valid_net_asset_class f.net_asset_class ≡ true = ground arith in
    let free : any (λ (r : FundRow). r.code == f.code) db.funds ≡ false = ground arith in
    let made : db'.funds ≡ db.funds ++ row ∷ [] = ground arith in
    subst IsFundList (sym made) (record {
      ids = ids-IsApart (λ (r : FundRow). r.id) conn db.funds row refl k.ids;
      codes = texts-Nodup (λ (r : FundRow). r.code) db.funds row free k.codes;
      classes = All-append _ db.funds (row ∷ []) k.classes (known, tt);
    })

-- An update of the rows with an id, and what it leaves alone.
module _ (f : UserRow → UserRow) (user_id : ℕ) where
  abbrev pub updated : UserRow → UserRow
  updated r = if eqb r.id user_id then f r else r

  pub updated_keeps :
      {A : Type 0} (g : UserRow → A) (rows : List UserRow)
      → ((r : UserRow) → g (f r) ≡ g r)
      → map g (map updated rows) ≡ map g rows
  updated_keeps g [] h = refl
  updated_keeps g (r ∷ rows) h = elim (Bool-cases (eqb r.id user_id)) [
    | inl hit ↦ rw hit (ap₂ (λ a m. a ∷ m) (h r) (updated_keeps g rows h))
    | inr other ↦ rw other (ap (λ m. g r ∷ m) (updated_keeps g rows h))
  ]

-- An update that keeps ids and names, and gives a valid role or none.
module _ (f : UserRow → UserRow) (user_id : ℕ) (same_id : (r : UserRow) → (f r).id ≡ r.id)
    (same_name : (r : UserRow) → (f r).username ≡ r.username)
    (keeps_role : (r : UserRow) → valid_role r.role ≡ true → valid_role (f r).role ≡ true) where
  updated_roles :
      (rows : List UserRow)
      → All (λ (r : UserRow). valid_role r.role ≡ true) rows
      → All (λ (r : UserRow). valid_role r.role ≡ true) (map (updated f user_id) rows)
  updated_roles [] h = tt
  updated_roles (r ∷ rows) h = elim (Bool-cases (eqb r.id user_id)) [
    | inl hit ↦ rw hit (keeps_role r h.0, updated_roles rows h.1)
    | inr other ↦ rw other (h.0, updated_roles rows h.1)
  ]

  pub updated-IsStaff :
      (db db' : Db) (n : ℕ)
      → update_users f user_id db ≡ done n db'
      → IsStaff db.users
      → IsStaff db'.users
  unfolding update_users
  updated-IsStaff db db' n h k =
      let made : db'.users ≡ map (updated f user_id) db.users = cc in
      subst IsStaff (sym made) (record {
        ids =
            subst IsApart (sym (updated_keeps f user_id (λ (r : UserRow). r.id) db.users same_id))
              k.ids;
        usernames =
            subst Nodup
              (sym (updated_keeps f user_id (λ (r : UserRow). r.username) db.users same_name))
              k.usernames;
        roles = updated_roles db.users k.roles;
      })
