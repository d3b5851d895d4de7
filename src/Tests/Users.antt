-- ===== src/Tests/Users.antt =====
-- Users and accounts of the sample office.
use nonprofit_ledger.Prelude.{◌≡◌, ◌⊎◌, refl, true, false, if◌then◌else◌, [], ◌∷◌, ◌++◌}
use nonprofit_ledger.Schema.{account_ids, fund_ids}
use nonprofit_ledger.Exec.{
  State, Error, sql, no_rows, invalid_role, ok, err, statement, fallible, ◌>>=◌,
}
use nonprofit_ledger.Users.{
  valid_role, role_check, set_role, with_role, inactive, create_user, update_users, update_role,
  deactivate,
}
use nonprofit_ledger.Users.Decided.{creating, changing, users-decide}
use nonprofit_ledger.Users.Updated.{IsChanged, update-IsChanged}
use nonprofit_ledger.Ledger.Accounts.{account_row, create_account}
use nonprofit_ledger.Ledger.Accounts.Decided.{calm, is_acceptable, create_account-decides}
use nonprofit_ledger.Ledger.Funds.{fund_row, create_fund}
use nonprofit_ledger.Ledger.Funds.Decided.{create_fund-decides}
use nonprofit_ledger.Ledger.Funds.Decided as Funds
use nonprofit_ledger.Tests.{conn, office, start}
use nonprofit_ledger.Tests.Ledger.{state_of}
use nonprofit_ledger.Tests.History.{new_account, general}

abbrev promoted : State
promoted = (update_role 2 "admin" start).1

abbrev dismissed : State
dismissed = (deactivate 2 start).1

update_role-accountant : update_role 2 "admin" start ≡ (ok tt, promoted)
unfolding update_role set_role role_check valid_role update_users fallible statement ◌>>=◌
update_role-accountant = refl

deactivate-accountant : deactivate 2 start ≡ (ok tt, dismissed)
unfolding deactivate update_users fallible statement ◌>>=◌
deactivate-accountant = refl

update-IsChanged_example :
    IsChanged (λ u. record u { role = "admin" }) 2 start (state_of promoted.db)
    × IsChanged (λ u. record u { active = false }) 2 start (state_of dismissed.db)
update-IsChanged_example =
    update-IsChanged 2 "admin" start start (state_of promoted.db) (state_of dismissed.db)
      update_role-accountant deactivate-accountant refl refl refl refl refl refl

users-decide_example :
    (create_user conn "ann" "" "admin" (calm office) ≡ creating conn "ann" "" "admin" office)
    × (update_role 7 "admin" (calm office) ≡ (
        if valid_role "admin"
        then changing (with_role "admin") 7 office
        else (err invalid_role, calm office)))
    × (deactivate 7 (calm office) ≡ changing inactive 7 office)
users-decide_example = users-decide conn "ann" "" "admin" 7 office

-- The office has no user 7.
deactivate-missing : deactivate 7 (calm office) ≡ (err (sql no_rows), calm office)
deactivate-missing = (users-decide conn "" "" "" 7 office).2

create_account-decides_example :
    ((is_acceptable (new_account "5000" "expense") office ≡ true)
      × (create_account conn (new_account "5000" "expense") (calm office) ≡ (
        ok (conn.row_id (account_ids office)),
        calm (record office {
          accounts = office.accounts ++ account_row conn (new_account "5000" "expense") office ∷ [];
        }),
      )))
    ⊎ ((is_acceptable (new_account "5000" "expense") office ≡ false)
        × (e : Error) × (create_account conn (new_account "5000" "expense") (calm office)
            ≡ (err e, calm office)))
create_account-decides_example = create_account-decides conn (new_account "5000" "expense") office

create_fund-decides_example :
    ((Funds.is_acceptable general office ≡ true)
      × (create_fund conn general (calm office) ≡ (
        ok (conn.row_id (fund_ids office)),
        calm (record office { funds = office.funds ++ fund_row conn general office ∷ [] }),
      )))
    ⊎ ((Funds.is_acceptable general office ≡ false)
        × (e : Error) × (create_fund conn general (calm office) ≡ (err e, calm office)))
create_fund-decides_example = create_fund-decides conn general office
