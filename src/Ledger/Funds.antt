-- ===== src/Ledger/Funds.antt =====
-- server/ledger/funds.go
pub mod Decided
use nonprofit_ledger.Prelude.{
  ℕ, String, Bool, ◌||◌, not, any, if◌then◌else◌, Option, [], ◌∷◌, ◌++◌, ◌==◌,
}
use nonprofit_ledger.Schema.{Db, FundRow, fund_ids}
use nonprofit_ledger.Exec.{
  Conn, Exec, Outcome, done, fail, unique_failed, check_failed, code_required, invalid_class,
  raise_if, statement, fallible, ◌>>=◌, ◌>>◌,
}
use nonprofit_ledger.Ledger.Accounts.{active_column}

pub record NewFund : Type 0 where
  pub code : String
  pub name : String
  pub net_asset_class : String
  pub restriction_detail : Option String
  pub is_active : Bool
  pub is_active_set : Bool

-- The keys of `validNetAssetClasses`.
unfoldable pub valid_net_asset_class : String → Bool
valid_net_asset_class c = c == "without_donor_restrictions" || c == "with_donor_restrictions"

-- CHECK (net_asset_class IN (...)) of migration 0002
unfoldable pub net_asset_class_check : String → Bool
net_asset_class_check c = c == "without_donor_restrictions" || c == "with_donor_restrictions"

module _ (conn : Conn) where
  abbrev pub fund_row : NewFund → Db → FundRow
  fund_row f db = record {
    id = conn.row_id (fund_ids db);
    code = f.code;
    name = f.name;
    net_asset_class = f.net_asset_class;
    restriction_detail = f.restriction_detail;
    is_active = active_column f.is_active f.is_active_set;
  }

  -- INSERT INTO funds
  unfoldable pub insert_fund : NewFund → Db → Outcome ℕ
  unfolding net_asset_class_check
  insert_fund f db =
      let row = fund_row f db in
      if not (net_asset_class_check f.net_asset_class)
      then fail check_failed
      else if any (λ (r : FundRow). r.code == f.code) db.funds
      then fail unique_failed
      else done row.id (record db { funds = db.funds ++ row ∷ [] })

  unfoldable pub create_fund : NewFund → Exec ℕ
  unfolding valid_net_asset_class statement insert_fund fallible ◌>>=◌
  create_fund f = do
    raise_if (f.code == "") code_required
    raise_if (not (valid_net_asset_class f.net_asset_class)) invalid_class
    id ← statement (insert_fund f)
    fallible id
