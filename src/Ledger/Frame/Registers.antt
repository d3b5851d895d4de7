-- ===== src/Ledger/Frame/Registers.antt =====
-- The frame of the functions that write accounts, funds and users.
use nonprofit_ledger.Prelude.{
  ℕ, String, ◌≡◌, sym, subst, true, not, eqb, contains, Option, none, some, ◌==◌, arith,
}
use nonprofit_ledger.Schema.{Db, account_ids}
use nonprofit_ledger.Exec.{
  Conn, Outcome, sql, no_rows, code_required, invalid_type, parent_missing, invalid_class,
  invalid_role, raise_if, statement, query, fallible, ◌>>=◌,
}
use nonprofit_ledger.Exec.Keeps.{
  Keeps, pure-Keeps, statement-Keeps, query-Keeps, fallible-Keeps, on_sql_error-Keeps,
  raise_if-Keeps,
}
use nonprofit_ledger.Ledger.Posting.{}
use nonprofit_ledger.Ledger.Reversal.{}
use nonprofit_ledger.Ledger.Accounts.{
  NewAccount, valid_account_type, check_parent, insert_account, create_account,
}
use nonprofit_ledger.Ledger.Funds.{NewFund, valid_net_asset_class, insert_fund, create_fund}
use nonprofit_ledger.Users.Roles.{set_role-valid}
use nonprofit_ledger.Users.{
  set_role, valid_role, create_error, insert_user, create_user, update_users, with_role, inactive,
  update_role, deactivate,
}
use nonprofit_ledger.Ledger.Frame.{Of, bind-Kept, guard-Kept}

module _ (R : Db → Db → Type 0) (same : (db : Db) → R db db)
    (both : (before middle after : Db) → R before middle → R middle after → R before after) where
  check_parent-Kept : (parent_id : Option ℕ) → Keeps R same both (check_parent parent_id)
  unfolding check_parent
  check_parent-Kept none = pure-Keeps R same both tt
  check_parent-Kept (some parent) =
      bind-Kept R same both (query (λ db. contains parent (account_ids db))) _
        (query-Keeps R same both _)
        (λ exists. raise_if-Keeps R same both (not exists) parent_missing)

  pub create_account-Keeps :
      (conn : Conn) (a : NewAccount)
      → Of R (insert_account conn a)
      → Keeps R same both (create_account conn a)
  unfolding create_account
  create_account-Keeps conn a kept = guard-Kept R same both (a.code == "") code_required _ (λ p.
      guard-Kept R same both (not (valid_account_type a.type)) invalid_type _ (λ q.
        bind-Kept R same both (check_parent a.parent_id) _ (check_parent-Kept a.parent_id) (λ u.
          bind-Kept R same both (statement (insert_account conn a)) _
            (statement-Keeps R same both (insert_account conn a) kept)
            (fallible-Keeps R same both))))

  pub create_fund-Keeps :
      (conn : Conn) (f : NewFund)
      → Of R (insert_fund conn f)
      → Keeps R same both (create_fund conn f)
  unfolding create_fund
  create_fund-Keeps conn f kept = guard-Kept R same both (f.code == "") code_required _ (λ p.
      guard-Kept R same both (not (valid_net_asset_class f.net_asset_class)) invalid_class _ (λ q.
        bind-Kept R same both (statement (insert_fund conn f)) _
          (statement-Keeps R same both (insert_fund conn f) kept) (fallible-Keeps R same both)))

  pub create_user-Keeps :
      (conn : Conn) (username password_hash role : String)
      → Of R (insert_user conn username password_hash role 1 0)
      → Keeps R same both (create_user conn username password_hash role)
  unfolding create_user
  create_user-Keeps conn username password_hash role kept =
      guard-Kept R same both (not (valid_role role)) invalid_role _ (λ p.
        bind-Kept R same both _ _
          (on_sql_error-Keeps R same both (create_error conn)
            (statement (insert_user conn username password_hash role 1 0))
            (statement-Keeps R same both _ kept))
          (λ row_id.
            bind-Kept R same both (fallible row_id) _ (fallible-Keeps R same both row_id)
              (λ id s. same s.db)))

  -- An update of users, and the test of the number of rows.
  affected-Kept :
      (f : Db → Outcome ℕ)
      → Of R f
      → Keeps R same both
          (statement f >>= λ affected. fallible affected >>= λ n. raise_if (eqb n 0) (sql no_rows))
  affected-Kept f kept =
      bind-Kept R same both (statement f) _ (statement-Keeps R same both f kept) (λ affected.
        bind-Kept R same both (fallible affected) _ (fallible-Keeps R same both affected)
          (λ n. raise_if-Keeps R same both (eqb n 0) (sql no_rows)))

  pub update_role-Keeps :
      (user_id : ℕ) (role : String)
      → (valid_role role ≡ true → Of R (update_users (with_role role) user_id))
      → Keeps R same both (update_role user_id role)
  unfolding update_role
  update_role-Keeps user_id role kept =
      guard-Kept R same both (not (valid_role role)) invalid_role _ (λ p.
        let valid : valid_role role ≡ true = ground arith in
        affected-Kept (set_role role user_id)
          (subst (Of R) (sym (set_role-valid role user_id valid)) (kept valid)))

  pub deactivate-Keeps :
      (user_id : ℕ) → Of R (update_users inactive user_id) → Keeps R same both (deactivate user_id)
  unfolding deactivate
  deactivate-Keeps user_id kept = affected-Kept (update_users inactive user_id) kept
