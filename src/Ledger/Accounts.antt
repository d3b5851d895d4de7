-- ===== src/Ledger/Accounts.antt =====
-- server/ledger/coa.go
pub mod Decided
use nonprofit_ledger.Prelude.{
  ℕ, ⊤, String, Bool, true, ◌&&◌, ◌||◌, not, any, contains, if◌then◌else◌, Option, none, some, [],
  ◌∷◌, ◌++◌, ◌==◌,
}
use nonprofit_ledger.Schema.{Db, AccountRow, account_ids}
use nonprofit_ledger.Exec.{
  Conn, Exec, Outcome, done, fail, unique_failed, check_failed, foreign_key_failed, code_required,
  invalid_type, parent_missing, pure, raise_if, statement, query, fallible, ◌>>=◌, ◌>>◌,
}

pub record NewAccount : Type 0 where
  pub code : String
  pub name : String
  pub type : String
  pub parent_id : Option ℕ
  pub is_active : Bool
  pub is_active_set : Bool

-- The keys of `validAccountTypes`.
unfoldable pub valid_account_type : String → Bool
valid_account_type t =
    t == "asset" || (t == "liability" || (t == "equity" || (t == "revenue" || t == "expense")))

-- CHECK (type IN (...)) of migration 0001
unfoldable pub account_type_check : String → Bool
account_type_check t =
    t == "asset" || (t == "liability" || (t == "equity" || (t == "revenue" || t == "expense")))

abbrev pub parent_reference : Option ℕ → Db → Bool
parent_reference none db = true
parent_reference (some parent) db = contains parent (account_ids db)

-- The value of the column is_active, of accounts and of funds.
abbrev pub active_column : Bool → Bool → ℕ
active_column is_active is_active_set = if is_active_set && not is_active then 0 else 1

-- `SELECT 1 FROM accounts WHERE id = ?`, where a parent is given.
unfoldable pub check_parent : Option ℕ → Exec ⊤
unfolding query ◌>>=◌
check_parent none = pure tt
check_parent (some parent) = do
  exists ← query (λ db. contains parent (account_ids db))
  raise_if (not exists) parent_missing

module _ (conn : Conn) where
  abbrev pub account_row : NewAccount → Db → AccountRow
  account_row a db = record {
    id = conn.row_id (account_ids db);
    code = a.code;
    name = a.name;
    type = a.type;
    parent_id = a.parent_id;
    is_active = active_column a.is_active a.is_active_set;
  }

  -- INSERT INTO accounts
  unfoldable pub insert_account : NewAccount → Db → Outcome ℕ
  unfolding account_type_check
  insert_account a db =
      let row = account_row a db in
      if not (account_type_check a.type)
      then fail check_failed
      else if any (λ (r : AccountRow). r.code == a.code) db.accounts
      then fail unique_failed
      else if conn.foreign_keys && not (parent_reference a.parent_id db)
      then fail foreign_key_failed
      else done row.id (record db { accounts = db.accounts ++ row ∷ [] })

  unfoldable pub create_account : NewAccount → Exec ℕ
  unfolding valid_account_type check_parent statement insert_account fallible ◌>>=◌
  create_account a = do
    raise_if (a.code == "") code_required
    raise_if (not (valid_account_type a.type)) invalid_type
    check_parent a.parent_id
    id ← statement (insert_account a)
    fallible id
