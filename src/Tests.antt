-- ===== src/Tests.antt =====
-- Sample tables, entries and sessions, and the theorems at them.
pub mod Ledger
pub mod Balances
pub mod History
pub mod Api
pub mod Backup
pub mod Server
pub mod Books
pub mod Requests
pub mod Session
pub mod Process
pub mod Users
pub mod Locks
use nonprofit_ledger.Prelude.{
  ℕ, String, ◌≡◌, ◌+◌, ◌<◌, Bool, true, false, ltb, contains, if◌then◌else◌, Option, none, some,
  List, [], ◌∷◌, arith,
}
use nonprofit_ledger.Schema.{AccountRow, FundRow, UserRow, Db, empty}
use nonprofit_ledger.Exec.{Conn, State, SqlError}
use nonprofit_ledger.Ledger.Entry.{NewEntry}
use nonprofit_ledger.Ledger.Totals.Overflow.{debit_line, credit_line}

-- One more than the largest id of the table, which is what SQLite takes below 2 ^ 63.
abbrev pub next_id : List ℕ → ℕ
next_id [] = 1
next_id (i ∷ ids) = let n = next_id ids in if ltb i n then n else i + 1

pub next_id-above : (ids : List ℕ) (i : ℕ) → contains i ids ≡ true → i < next_id ids
next_id-above [] i h = cc
next_id-above (j ∷ ids) i h = ground (arith, next_id-above ids i)

abbrev pub conn : Conn
conn = record {
  row_id = next_id;
  row_id_above = next_id-above;
  message = λ e. "";
  foreign_keys = true;
  datetime_now = "2024-03-02 10:00:00";
  rfc3339_now = "2024-03-02T10:00:00Z";
}

abbrev pub account : ℕ → String → String → AccountRow
account id code type = record {
  id = id;
  code = code;
  name = code;
  type = type;
  parent_id = none;
  is_active = 1;
}

abbrev pub user_row : ℕ → String → ℕ → UserRow
user_row id role active = record {
  id = id;
  username = role;
  password_hash = "";
  role = role;
  active = active;
  must_change_password = 0;
  created_at = "";
}

-- Two accounts, a fund, an admin, an accountant, and a user who was deactivated.
abbrev pub office : Db
office = record empty {
  accounts = account 1 "1000" "asset" ∷ account 2 "4000" "revenue" ∷ [];
  funds =
      record {
        id = 1;
        code = "GEN";
        name = "General";
        net_asset_class = "without_donor_restrictions";
        restriction_detail = none;
        is_active = 1;
      }
      ∷ [];
  users = user_row 1 "admin" 1 ∷ user_row 2 "external_accountant" 1 ∷ user_row 3 "admin" 0 ∷ [];
}

abbrev pub start : State
start = record { db = office; faults = [] }

-- The driver fails the fifth call: the insert of the entry.
abbrev pub failing : State
failing = record { db = office; faults = false ∷ false ∷ false ∷ false ∷ true ∷ [] }

abbrev pub donation : NewEntry
donation = record {
  entry_date = "2024-03-01";
  memo = "March donations";
  posted_by = 1;
  source = "";
  lines = debit_line 1 1 2500 ∷ credit_line 2 1 2500 ∷ [];
}
