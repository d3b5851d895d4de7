-- ===== src/Exec.antt =====
-- Calls of database/sql and of the SQLite driver: statements that run on the tables, any of which
-- the driver may fail, and transactions. The text of each statement is in the module that issues it.
pub mod Inversion
pub mod Keeps
use nonprofit_ledger.Prelude.{
  ℕ, ⊤, ◌<◌, String, ◌≡◌, Bool, true, false, Option, none, some, List, [], ◌∷◌,
}
use nonprofit_ledger.Prelude.{contains}
use nonprofit_ledger.Schema.{Db}

-- How the driver refuses a statement: by a constraint of the schema, for a query with no row, or
-- for a reason of its own (a full disk, a locked file).
pub data SqlError : Type 0 where
  check_failed unique_failed foreign_key_failed integer_overflow no_rows driver_error : SqlError

-- What a Go function of the program returns beside its value.
pub data Error : Type 0 where
  sql : SqlError → Error
  action_empty entity_type_empty : Error
  no_lines not_balanced period_locked : Error
  account_missing category_required : ℕ → Error
  original_missing original_has_no_lines : Error
  code_required invalid_type parent_missing invalid_class : Error
  invalid_role duplicate_username : Error
  random_failed file_error integrity_failed : Error

pub data Result {ℓ} (A : Type ℓ) : Type ℓ where
  ok : A → Result A
  err : Error → Result A

-- A constraint that a statement meets, or the value and the tables that it leaves.
pub data Outcome (A : Type 0) : Type 0 where
  done : A → Db → Outcome A
  fail : SqlError → Outcome A

-- A connection: SQLite's choice of the id of a new row in a table that holds the given ids, the text
-- of its errors, whether it enforces foreign keys, and the clock as `datetime('now')` and as RFC 3339.
pub record Conn : Type 0 where
  pub row_id : List ℕ → ℕ
  pub row_id_above : (ids : List ℕ) (i : ℕ) → contains i ids ≡ true → i < row_id ids
  pub message : SqlError → String
  pub foreign_keys : Bool
  pub datetime_now : String
  pub rfc3339_now : String

-- The tables, and what becomes of the calls to come: `true` where the driver fails one.
pub record State : Type 0 where
  pub db : Db
  pub faults : List Bool

abbrev pub Exec {ℓ} : Type ℓ → Type ℓ
Exec A = State → Result A × State

module _ {ℓ} {A : Type ℓ} where
  abbrev pub pure : A → Exec A
  pure a s = (ok a, s)

  abbrev pub raise : Error → Exec A
  raise e s = (err e, s)

module _ {ℓ κ} {A : Type ℓ} {B : Type κ} where
  abbrev pub continue : Result A → (A → Exec B) → Exec B
  continue (ok a) f s = f a s
  continue (err e) f s = (err e, s)

infixl 5 ◌>>=◌ ◌>>◌
unfoldable pub ◌>>=◌ {ℓ κ} : {A : Type ℓ} {B : Type κ} → Exec A → (A → Exec B) → Exec B
◌>>=◌ m f s = let (r, s') = m s in continue r f s'

abbrev pub ◌>>◌ {ℓ κ} : {A : Type ℓ} {B : Type κ} → Exec A → Exec B → Exec B
m >> k = m >>= λ _. k

-- Whether the driver fails the next call, and the faults of the calls after it.
abbrev pub is_due : List Bool → Bool
is_due [] = false
is_due (b ∷ bs) = b

abbrev pub later : List Bool → List Bool
later [] = []
later (b ∷ bs) = bs

abbrev pub tick : State → State
tick s = record s { faults = later s.faults }

module _ {A : Type 0} where
  abbrev pub settle : Outcome A → Exec A
  settle (done a db) s = (ok a, record s { db = db })
  settle (fail e) s = (err (sql e), s)

  abbrev pub attempt : Bool → (Db → Outcome A) → Exec A
  attempt true f s = (err (sql driver_error), s)
  attempt false f s = settle (f s.db) s

  -- One statement; a refused one leaves the tables alone.
  unfoldable pub statement : (Db → Outcome A) → Exec A
  statement f s = attempt (is_due s.faults) f (tick s)

  -- `tx.Commit`, with the tables as they stood at `db.Begin`.
  abbrev pub commit : Bool → Db → A → Exec A
  commit true before a s = (err (sql driver_error), record s { db = before })
  commit false before a s = (ok a, s)

  -- The end of a transaction: a commit after success, the deferred `tx.Rollback` after an error.
  abbrev pub finish : Db → Result A → Exec A
  finish before (ok a) s = commit (is_due s.faults) before a (tick s)
  finish before (err e) s = (err e, record s { db = before })

  abbrev pub begin : Bool → Exec A → Exec A
  begin true body s = (err (sql driver_error), s)
  begin false body s = let (r, s') = body s in finish s.db r s'

  -- `db.Begin`, the body, and its end.
  unfoldable pub transact : Exec A → Exec A
  transact body s = begin (is_due s.faults) body (tick s)

-- `res.LastInsertId()` and the like: a call that may fail and changes nothing.
unfoldable pub fallible : {A : Type 0} → A → Exec A
unfolding statement
fallible a = statement (λ db. done a db)

-- `QueryRow(...).Scan(...)`, where `none` stands for `sql.ErrNoRows`.
unfoldable pub query : {A : Type 0} → (Db → A) → Exec A
unfolding statement
query f = statement (λ db. done (f db) db)

-- An `if` that returns an error.
abbrev pub raise_if : Bool → Error → Exec ⊤
raise_if true e = raise e
raise_if false e = pure tt

-- A row that must be there.
abbrev pub or_raise {ℓ} : {A : Type ℓ} → Option A → Error → Exec A
or_raise none e = raise e
or_raise (some a) e = pure a

-- A call whose errors from the driver are turned into other errors.
module _ {A : Type 0} where
  abbrev pub rename : (SqlError → Error) → Result A → Result A
  rename f (ok a) = ok a
  rename f (err (sql e)) = err (f e)
  rename f (err e) = err e

  unfoldable pub on_sql_error : (SqlError → Error) → Exec A → Exec A
  on_sql_error f m s = let (r, s') = m s in (rename f r, s')
