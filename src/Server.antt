-- ===== src/Server.antt =====
-- cmd/server/main.go
pub mod Bootstrap
pub mod Main
pub mod Run
pub mod Process
pub mod Started
pub mod Scheduler
use Prim.Native.String
use nonprofit_ledger.Prelude.{
  ℕ, ⊤, zero, suc, String, Bool, true, false, ltb, leb, ◌%◌, length, if◌then◌else◌, Option, none,
  some, List, [], ◌∷◌, ◌==◌,
}
use nonprofit_ledger.Prelude.Int.{ℤ}
use nonprofit_ledger.Prelude.Text.{codes}
use nonprofit_ledger.Prelude.Sort.{take}
use nonprofit_ledger.Exec.{
  Conn, State, Exec, Result, ok, err, Error, random_failed, pure, raise, query, statement, ◌>>=◌,
  ◌>>◌,
}
use nonprofit_ledger.Users.{insert_user}
use nonprofit_ledger.Auth.Password.{Crypto, hash_password}
use nonprofit_ledger.Database.{Sqlite, Up, open_db, run_migrations}
use nonprofit_ledger.Schema.{Db}
use nonprofit_ledger.Disk
use nonprofit_ledger.Disk.{FilePath, Host, Sys, on_db}
use nonprofit_ledger.Backup.{Clock, run_scheduled}

-- `os.Getenv`: "" where a variable is not set.
abbrev pub Environment : Type 0
Environment = String → String

unfoldable pub env_or_default : Environment → String → String → String
env_or_default env key fallback = let v = env key in if v == "" then fallback else v

pub record Settings : Type 0 where
  pub db_path : String
  pub port : String
  pub migrations_dir : String
  pub backup_dir : String
  pub backup_interval : ℤ
  pub backup_retain : ℤ

abbrev pub with_backup : Environment → Option ℤ → Option ℤ → Option Settings
with_backup env none retain = none
with_backup env (some interval) none = none
with_backup env (some interval) (some retain) = some (record {
  db_path = env_or_default env "LEDGER_DB_PATH" "./ledger.db";
  port = env_or_default env "LEDGER_PORT" "8080";
  migrations_dir = env_or_default env "LEDGER_MIGRATIONS_DIR" "server/db/migrations";
  backup_dir = env_or_default env "LEDGER_BACKUP_DIR" "./backups";
  backup_interval = interval;
  backup_retain = retain;
})

-- The head of `main`, over `time.ParseDuration` and `strconv.Atoi`; `none` is `log.Fatalf`.
unfoldable pub settings : (String → Option ℤ) → (String → Option ℤ) → Environment → Option Settings
unfolding env_or_default
settings parse_duration atoi env =
    with_backup env (parse_duration (env_or_default env "LEDGER_BACKUP_INTERVAL" "24h"))
      (atoi (env_or_default env "LEDGER_BACKUP_RETAIN" "7"))

abbrev pub alphabet : String
alphabet = "abcdefghijkmnopqrstuvwxyzABCDEFGHJKLMNPQRSTUVWXYZ23456789"

-- The text of one byte of an ASCII text.
abbrev pub char_text : String → ℕ → String
char_text String.[] n = ""
char_text (String.◌∷◌ c s) zero = String.◌∷◌ c ""
char_text (String.◌∷◌ c s) (suc n) = char_text s n

-- The loop over the random bytes.
unfoldable pub spell : List ℕ → String
spell [] = ""
spell (b ∷ bs) = String.◌++◌ (char_text alphabet (b % length (codes alphabet))) (spell bs)

-- `rand.Read` of a buffer of some length, from a source that gives bytes, or fails; a source that
-- runs out fails as well.
abbrev pub read_full : ℕ → Option (List ℕ) → Option (List ℕ)
read_full n none = none
read_full n (some bytes) = if leb n (length bytes) then some (take n bytes) else none

abbrev pub spelled : Option (List ℕ) → Result String
spelled none = err random_failed
spelled (some bytes) = ok (spell bytes)

unfoldable pub generate_one_time_password : ℕ → Option (List ℕ) → Result String
unfolding spell
generate_one_time_password n source = spelled (read_full n source)

abbrev pub or_error : {A : Type 0} → Result A → Exec A
or_error r s = (r, s)

-- The connection reads the tables of the file from then on.
abbrev pub connect : Db → Sys ⊤
connect db h = (ok tt, record h { state = record h.state { db = db } })

-- The source of the random bytes of the password, and the salt; the result is what is printed to the console:
-- the username and the password, or nothing.
module _ (conn : Conn) (crypto : Crypto) (random salt : Option (List ℕ)) where
  unfoldable pub create_first_admin : Exec (Option (String × String))
  unfolding generate_one_time_password hash_password insert_user statement ◌>>=◌
  create_first_admin = do
    password ← or_error (generate_one_time_password 20 random)
    hash ← or_error (hash_password crypto salt password)
    statement (insert_user conn "admin" hash "admin" 1 1)
    pure (some ("admin", password))

  unfoldable pub bootstrap_first_admin : Exec (Option (String × String))
  unfolding query create_first_admin ◌>>=◌
  bootstrap_first_admin = do
    count ← query (λ db. length db.users)
    if ltb 0 count then pure none else create_first_admin

  -- What `main` does with the database before it serves: it opens the file, runs the migrations and
  -- makes the first admin. The tables of the file become those of the connection.
  unfoldable pub prepare :
      Sqlite → (String → Db → Up) → FilePath → String → Sys (Option (String × String))
  unfolding open_db run_migrations bootstrap_first_admin Disk.◌>>=◌
  prepare sqlite migrator db_path migrations_dir = Disk.◌>>=◌ (open_db sqlite db_path) (λ db.
      Disk.◌>>=◌ (connect db) (λ u.
        Disk.◌>>=◌ (on_db (run_migrations migrator migrations_dir))
          (λ u. on_db bootstrap_first_admin)))

module _ (conn : Conn) (text : Error → String) (sqlite : Sqlite) where
  -- `runOnce`: an error is logged only.
  unfoldable pub run_once : String → ℕ → Clock → Host → Host
  unfolding run_scheduled
  run_once dir retain clock h = (run_scheduled conn text sqlite dir retain clock h).1

  -- The immediate run and those of the ticks that follow, for the number of snapshots to retain.
  unfoldable pub backup_scheduler : String → ℕ → List Clock → Host → Host
  unfolding run_once
  backup_scheduler dir retain [] h = h
  backup_scheduler dir retain (clock ∷ ticks) h =
      backup_scheduler dir retain ticks (run_once dir retain clock h)
