-- ===== src/Tests/History.antt =====
-- A history of a new database, up to its first trial balance.
use nonprofit_ledger.Prelude.{subst, ap, String, ◌≡◌, refl, true, false, none, [], ◌∷◌}
use nonprofit_ledger.Prelude.Int.{pos, ◌+ℤ◌, ◌-ℤ◌, wrap64}
use nonprofit_ledger.Prelude.Text.{text_le}
use nonprofit_ledger.Schema.{Db, empty}
use nonprofit_ledger.Exec.{
  Result, State, ok, ◌>>=◌, statement, transact, query, fallible, on_sql_error,
}
use nonprofit_ledger.Audit
use nonprofit_ledger.Ledger.Entry.{
  line_checks, line_references, insert_entry, insert_line, insert_lines,
}
use nonprofit_ledger.Ledger.Posting.{
  balances, balances_from, post_tx, post_journal_entry, check_lines, lookup_account_type,
  get_locked_through_date_tx,
}
use nonprofit_ledger.Ledger.Balances.{
  sql_sum_from, sum_difference, groups, balance_rows, trial_balance,
}
use nonprofit_ledger.Ledger.Balances.Total.{sum_balances}
use nonprofit_ledger.Users.{create_user, valid_role, insert_user, role_check}
use nonprofit_ledger.Ledger.Accounts.{
  NewAccount, create_account, valid_account_type, account_type_check, check_parent, insert_account,
}
use nonprofit_ledger.Ledger.Funds.{
  NewFund, create_fund, valid_net_asset_class, net_asset_class_check, insert_fund,
}
use nonprofit_ledger.Ledger.Books.History.{
  Step, Reach, here, next, post, open_account, open_fund, add_user, trial_balance-zero,
}
use nonprofit_ledger.Tests.{account, conn, office, donation}
use nonprofit_ledger.Tests.Ledger.{with_donation, state_of, donation-Fits}
use nonprofit_ledger.Tests.Balances.{one_row}

-- A new database, with a user, two accounts, a fund and a donation.
abbrev pub with_user : Db
with_user = record empty {
  users =
      record {
        id = 1;
        username = "admin";
        password_hash = "";
        role = "admin";
        active = 1;
        must_change_password = 0;
        created_at = "2024-03-02 10:00:00";
      }
      ∷ [];
}

abbrev pub new_account : String → String → NewAccount
new_account code type = record {
  code = code;
  name = code;
  type = type;
  parent_id = none;
  is_active = false;
  is_active_set = false;
}

abbrev pub general : NewFund
general = record {
  code = "GEN";
  name = "General";
  net_asset_class = "without_donor_restrictions";
  restriction_detail = none;
  is_active = false;
  is_active_set = false;
}

abbrev with_cash : Db
with_cash = record with_user { accounts = account 1 "1000" "asset" ∷ [] }

abbrev with_accounts : Db
with_accounts = record with_user { accounts = office.accounts }

abbrev pub with_fund : Db
with_fund = record with_accounts { funds = office.funds }

pub create_user-admin : create_user conn "admin" "" "admin" (state_of empty) ≡ (
  ok (record {
    id = 1;
    username = "admin";
    password_hash = "";
    role = "admin";
    active = true;
    must_change_password = false;
  }),
  state_of with_user,
)
unfolding create_user valid_role insert_user role_check fallible on_sql_error statement ◌>>=◌
create_user-admin = refl

create_account-cash :
    create_account conn (new_account "1000" "asset") (state_of with_user)
    ≡ (ok 1, state_of with_cash)
unfolding create_account valid_account_type account_type_check check_parent insert_account fallible
    statement ◌>>=◌
create_account-cash = refl

create_account-gifts :
    create_account conn (new_account "4000" "revenue") (state_of with_cash)
    ≡ (ok 2, state_of with_accounts)
unfolding create_account valid_account_type account_type_check check_parent insert_account fallible
    statement ◌>>=◌
create_account-gifts = refl

create_fund-general : create_fund conn general (state_of with_accounts) ≡ (ok 1, state_of with_fund)
unfolding create_fund valid_net_asset_class net_asset_class_check insert_fund fallible statement
    ◌>>=◌
create_fund-general = refl

post-first_books :
    post_journal_entry conn donation (state_of with_fund)
    ≡ (ok 1, state_of (with_donation with_fund))
unfolding post_journal_entry fallible transact post_tx get_locked_through_date_tx check_lines
    lookup_account_type insert_entry insert_lines insert_line line_checks line_references
    Audit.write Audit.insert_audit statement query ◌>>=◌ balances balances_from wrap64 ◌+ℤ◌ text_le
post-first_books = refl

-- A step to tables that are known.
step_to :
    {A : Type 0} {before middle after : Db} (result : Result A × State) {a : A}
    → Reach before middle
    → Step middle result.1.db
    → result ≡ (ok a, state_of after)
    → Reach before after
step_to {before = before} result r st e =
    subst (Reach before) (ap (λ (p : Result _ × State). p.1.db) e) (next r st)

pub first_books-Reach : Reach empty (with_donation with_fund)
first_books-Reach =
    let s₁ = step_to _ here (add_user conn "admin" "" "admin" (state_of empty)) create_user-admin in
    let s₂ =
      step_to _ s₁ (open_account conn (new_account "1000" "asset") (state_of with_user))
        create_account-cash in
    let s₃ =
      step_to _ s₂ (open_account conn (new_account "4000" "revenue") (state_of with_cash))
        create_account-gifts in
    let s₄ = step_to _ s₃ (open_fund conn general (state_of with_accounts)) create_fund-general in
    step_to _ s₄ (post conn donation (state_of with_fund) donation-Fits) post-first_books

trial_balance-first_books :
    trial_balance (state_of (with_donation with_fund))
    ≡ (ok one_row, state_of (with_donation with_fund))
unfolding trial_balance statement groups balance_rows sum_difference sql_sum_from ◌-ℤ◌ ◌+ℤ◌
trial_balance-first_books = refl

trial_balance-zero_example : sum_balances one_row ≡ pos 0
trial_balance-zero_example =
    trial_balance-zero (state_of (with_donation with_fund)) first_books-Reach
      trial_balance-first_books
