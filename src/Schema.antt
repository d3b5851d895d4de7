-- ===== src/Schema.antt =====
-- The tables of server/db/migrations, as lists of rows in the order of their row ids.
-- Row ids are numbers: SQLite hands out positive ones only. Integer columns that hold a truth value
-- keep their integer.
use nonprofit_ledger.Prelude.{ℕ, String, Option, none, List, [], map}
use nonprofit_ledger.Prelude.Int.{ℤ}

-- 0001_accounts
pub record AccountRow : Type 0 where
  pub id : ℕ
  pub code : String
  pub name : String
  pub type : String
  pub parent_id : Option ℕ
  pub is_active : ℕ

-- 0002_funds
pub record FundRow : Type 0 where
  pub id : ℕ
  pub code : String
  pub name : String
  pub net_asset_class : String
  pub restriction_detail : Option String
  pub is_active : ℕ

-- 0003_journal, the table journal_entries
pub record EntryRow : Type 0 where
  pub id : ℕ
  pub entry_date : String
  pub memo : String
  pub posted_by : ℕ
  pub posted_at : String
  pub source : String
  pub reverses_entry_id : Option ℕ

-- 0003_journal, the table journal_lines
pub record LineRow : Type 0 where
  pub id : ℕ
  pub entry_id : ℕ
  pub account_id : ℕ
  pub fund_id : ℕ
  pub functional_category : Option String
  pub debit_amount : ℤ
  pub credit_amount : ℤ

-- 0004_periods: the row with id 1, the only one that the program reads or writes
pub record PeriodRow : Type 0 where
  pub locked_through_date : Option String
  pub locked_by : Option ℕ
  pub locked_at : Option String

-- 0005_users
pub record UserRow : Type 0 where
  pub id : ℕ
  pub username : String
  pub password_hash : String
  pub role : String
  pub active : ℕ
  pub must_change_password : ℕ
  pub created_at : String

-- 0007_audit_log
pub record AuditRow : Type 0 where
  pub id : ℕ
  pub actor_user_id : ℕ
  pub action : String
  pub entity_type : String
  pub entity_id : ℕ
  pub detail : String
  pub occurred_at : String

-- 0008_backup_runs
pub record BackupRow : Type 0 where
  pub id : ℕ
  pub started_at : String
  pub finished_at : String
  pub status : String
  pub file_path : Option String
  pub size_bytes : Option ℕ
  pub error : Option String

pub record Db : Type 0 where
  pub accounts : List AccountRow
  pub funds : List FundRow
  pub entries : List EntryRow
  pub lines : List LineRow
  pub period : Option PeriodRow
  pub users : List UserRow
  pub audit_log : List AuditRow
  pub backup_runs : List BackupRow

-- The tables as the migrations leave them.
abbrev pub empty : Db
empty = record {
  accounts = [];
  funds = [];
  entries = [];
  lines = [];
  period = none;
  users = [];
  audit_log = [];
  backup_runs = [];
}

abbrev pub account_ids : Db → List ℕ
account_ids db = map (λ (r : AccountRow). r.id) db.accounts

abbrev pub fund_ids : Db → List ℕ
fund_ids db = map (λ (r : FundRow). r.id) db.funds

abbrev pub entry_ids : Db → List ℕ
entry_ids db = map (λ (r : EntryRow). r.id) db.entries

abbrev pub line_ids : Db → List ℕ
line_ids db = map (λ (r : LineRow). r.id) db.lines

abbrev pub user_ids : Db → List ℕ
user_ids db = map (λ (r : UserRow). r.id) db.users

abbrev pub audit_ids : Db → List ℕ
audit_ids db = map (λ (r : AuditRow). r.id) db.audit_log

abbrev pub backup_ids : Db → List ℕ
backup_ids db = map (λ (r : BackupRow). r.id) db.backup_runs
