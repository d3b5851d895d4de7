-- ===== src/Api/Http.antt =====
-- Requests and responses, as the handlers of server/api see them. The text of a body is read by the
-- JSON decoder, which is a parameter; a response keeps the value that is encoded.
use nonprofit_ledger.Prelude.{ℕ, String, Bool, Option, List, eqb, if◌then◌else◌}
use nonprofit_ledger.Exec.{Error}
use nonprofit_ledger.Ledger.Entry.{NewLine}
use nonprofit_ledger.Ledger.Balances.{FundBalanceRow}

pub record Request : Type 0 where
  pub method : String
  pub path : String
  pub body : String

pub record LoginRequest : Type 0 where
  pub username : String
  pub password : String

pub record CreateUserRequest : Type 0 where
  pub username : String
  pub password : String
  pub role : String

pub record UpdateRoleRequest : Type 0 where
  pub role : String

pub record LockPeriodRequest : Type 0 where
  pub through_date : String

-- The lines of a request have the fields of `NewLine`, and are copied field by field.
pub record PostJournalEntryRequest : Type 0 where
  pub entry_date : String
  pub memo : String
  pub source : String
  pub lines : List NewLine

-- `json.NewDecoder(r.Body).Decode`, for each type of request; `none` is an error.
pub record Json : Type 0 where
  pub login : String → Option LoginRequest
  pub create_user : String → Option CreateUserRequest
  pub update_role : String → Option UpdateRoleRequest
  pub lock_period : String → Option LockPeriodRequest
  pub post_journal_entry : String → Option PostJournalEntryRequest

pub record UserResponse : Type 0 where
  pub id : ℕ
  pub username : String
  pub role : String
  pub active : Bool
  pub must_change_password : Bool

pub record BackupStatus : Type 0 where
  pub last_success_at : Option String
  pub last_status : Option String
  pub last_error : Option String
  pub retained_snapshot_count : ℕ

-- `error` is a fixed text under the key "error", `failure` the text of an error of the ledger.
pub data Body : Type 0 where
  error plain : String → Body
  failure : Error → Body
  status_ok : Body
  created : ℕ → Body
  user : UserResponse → Body
  users : List UserResponse → Body
  balances : List FundBalanceRow → Body
  backup : BackupStatus → Body

pub record Response : Type 0 where
  pub status : ℕ
  pub body : Body

abbrev pub reply : ℕ → Body → Response
reply status body = record { status = status; body = body }

abbrev pub reply_error : ℕ → String → Response
reply_error status text = reply status (error text)

-- `http.Error` of the two middlewares.
abbrev pub refuse : ℕ → Response
refuse status = reply status (plain (if eqb status 401 then "unauthorized" else "forbidden"))
