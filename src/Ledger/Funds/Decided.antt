-- ===== src/Ledger/Funds/Decided.antt =====
-- Which new funds CreateFund takes.
use nonprofit_ledger.Prelude.{
  String, ◌≡◌, ◌⊎◌, refl, Bool, true, false, ◌&&◌, not, any, inl, inr, Bool-cases, [], ◌∷◌, ◌++◌,
  ◌==◌,
}
use nonprofit_ledger.Schema.{Db, FundRow, fund_ids}
use nonprofit_ledger.Exec.{
  Conn, ok, err, Error, sql, unique_failed, code_required, invalid_class, statement, fallible,
  ◌>>=◌,
}
use nonprofit_ledger.Ledger.Accounts.Decided.{calm}
use nonprofit_ledger.Ledger.Funds.{
  NewFund, valid_net_asset_class, net_asset_class_check, fund_row, insert_fund, create_fund,
}

-- A code that no fund has, and one of the two classes.
abbrev pub is_acceptable : NewFund → Db → Bool
is_acceptable f db =
    not (f.code == "")
    && (valid_net_asset_class f.net_asset_class
        && not (any (λ (r : FundRow). r.code == f.code) db.funds))

-- The Go code's classes are those of the CHECK clause.
known_class : (c : String) → valid_net_asset_class c ≡ true → net_asset_class_check c ≡ true
unfolding valid_net_asset_class net_asset_class_check
known_class c h = h

-- On a connection that fails no call, CreateFund takes a fund exactly when its code is not empty
-- and new and its class is one of the two; then it returns the next id and adds one row at the end
-- of the table, and otherwise it returns an error and changes no table.
pub create_fund-decides :
    (conn : Conn) (f : NewFund) (db : Db)
    → ((is_acceptable f db ≡ true)
        × (create_fund conn f (calm db) ≡ (
          ok (conn.row_id (fund_ids db)),
          calm (record db { funds = db.funds ++ fund_row conn f db ∷ [] }),
        )))
      ⊎ ((is_acceptable f db ≡ false)
          × (e : Error) × (create_fund conn f (calm db) ≡ (err e, calm db)))
unfolding create_fund insert_fund statement fallible ◌>>=◌
create_fund-decides conn f db = elim (Bool-cases (f.code == "")) [
  | inl blank ↦ inr (rw blank (refl, code_required, refl))
  | inr given ↦ elim (Bool-cases (valid_net_asset_class f.net_asset_class)) [
    | inr unknown ↦ inr (rw (given, unknown) (refl, invalid_class, refl))
    | inl known ↦
        let checked = known_class f.net_asset_class known in
        elim (Bool-cases (any (λ (r : FundRow). r.code == f.code) db.funds)) [
          | inl taken ↦ inr (rw (given, known, checked, taken) (refl, sql unique_failed, refl))
          | inr free ↦ inl (rw (given, known, checked, free) (refl, refl))
        ]
  ]
]
