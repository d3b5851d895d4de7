-- ===== src/Server/Main.antt =====
-- `main` of cmd/server/main.go, up to the point where http.ListenAndServe takes over.
use Prim.Native.String
use nonprofit_ledger.Prelude.{ℕ, zero, suc, String, Option, none, some, List}
use nonprofit_ledger.Prelude.Int.{ℤ, pos, negsuc}
use nonprofit_ledger.Schema.{Db}
use nonprofit_ledger.Exec.{Conn, Result, ok, err, Error}
use nonprofit_ledger.Auth.Password.{Crypto}
use nonprofit_ledger.Auth.Session.{SessionSettings, new_session_manager}
use nonprofit_ledger.Database.{Sqlite, Up, no_change, failed, applied}
use nonprofit_ledger.Disk.{FilePath, Disk, Host}
use nonprofit_ledger.Backup.{Clock}
use nonprofit_ledger.Server.{Environment, Settings, settings, prepare, run_once}

-- What `main` uses from outside: the environment, `time.ParseDuration` and `strconv.Atoi`, the path
-- that a text names, SQLite and golang-migrate, and the random bytes and the clock of this start.
pub record Machine : Type 0 where
  pub env : Environment
  pub parse_duration : String → Option ℤ
  pub atoi : String → Option ℤ
  pub path_of : String → FilePath
  pub conn : Conn
  pub text : Error → String
  pub crypto : Crypto
  pub sqlite : Sqlite
  pub migrator : String → Db → Up
  pub random : Option (List ℕ)
  pub salt : Option (List ℕ)
  pub clock : Clock

-- The goroutine that waits for the ticks; `time.NewTicker` panics unless its interval is positive.
pub data Ticker : Type 0 where
  panics : Ticker
  every : ℕ → Ticker

unfoldable pub new_ticker : ℤ → Ticker
new_ticker (pos zero) = panics
new_ticker (pos (suc n)) = every (suc n)
new_ticker (negsuc n) = panics

-- What `http.ListenAndServe` is called with, what has been printed, and the ticker of the goroutine.
pub record Serving : Type 0 where
  pub addr : String
  pub printed : Option (String × String)
  pub ticker : Ticker
  pub sessions : SessionSettings
  pub settings : Settings
  pub host : Host

-- Where `main` gets: `log.Fatalf`; a run of Rotate that keeps a negative number of files, which may
-- panic; the server; or the server next to a goroutine that panics and so ends the process, which may
-- have answered requests by then.
pub data Started : Type 0 where
  stopped : Host → Started
  unknown : Started
  serving ending : Serving → Started

-- The server of a process, also of one that is about to end.
abbrev pub server_of : Started → Option Serving
server_of (stopped h) = none
server_of unknown = none
server_of (serving sv) = some sv
server_of (ending sv) = some sv

module _ (m : Machine) where
  open m use {
    env, parse_duration, atoi, path_of, conn, text, crypto, sqlite, migrator, random, salt, clock,
  }

  -- The first run of the backup, and the goroutine for the next ones.
  unfoldable pub start_backup_scheduler : String → ℤ → ℤ → Host → Option (Ticker × Host)
  unfolding run_once new_ticker
  start_backup_scheduler dir interval (negsuc n) h = none
  start_backup_scheduler dir interval (pos retain) h =
      some (new_ticker interval, run_once conn text sqlite dir retain clock h)

  abbrev pub server : Settings → Option (String × String) → Ticker → Host → Serving
  server s printed ticker h = record {
    addr = String.◌++◌ ":" s.port;
    printed = printed;
    ticker = ticker;
    sessions = new_session_manager (env "LEDGER_COOKIE_SECURE");
    settings = s;
    host = h;
  }

  abbrev pub listen : Settings → Option (String × String) → Option (Ticker × Host) → Started
  listen s printed none = unknown
  listen s printed (some (panics, h)) = ending (server s printed panics h)
  listen s printed (some (every n, h)) = serving (server s printed (every n) h)

  -- Once the database is ready.
  abbrev pub after_prepare : Settings → Result (Option (String × String)) → Host → Started
  after_prepare s (err e) h = stopped h
  after_prepare s (ok printed) h =
      listen s printed (start_backup_scheduler s.backup_dir s.backup_interval s.backup_retain h)

  abbrev pub start_with : Option Settings → Host → Started
  start_with none h = stopped h
  start_with (some s) h =
      let (r, h') =
        prepare conn crypto random salt sqlite migrator (path_of s.db_path) s.migrations_dir h in
      after_prepare s r h'

  unfoldable pub main : Host → Started
  unfolding settings prepare start_backup_scheduler new_session_manager
  main h = start_with (settings parse_duration atoi env) h

-- The tables that the migrations leave of a database.
abbrev pub migrated : Up → Db → Option Db
migrated no_change db = some db
migrated (failed db') db = none
migrated (applied db') db = some db'

abbrev pub migrated_from : (String → Db → Up) → String → Option Db → Option Db
migrated_from migrator dir none = none
migrated_from migrator dir (some db) = migrated (migrator dir db) db

-- The tables of a file on the disk, after the migrations.
abbrev pub migrated_at : Machine → Settings → Disk → Option Db
migrated_at m s disk =
    migrated_from m.migrator s.migrations_dir (m.sqlite.load (m.path_of s.db_path) disk)
