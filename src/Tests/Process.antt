-- ===== src/Tests/Process.antt =====
-- A start of the server on the first books, and a request to it.
use nonprofit_ledger.Prelude.{◌≡◌, refl, none, some, [], ◌∷◌}
use nonprofit_ledger.Prelude.Int.{pos}
use nonprofit_ledger.Schema.{Db, UserRow, empty}
use nonprofit_ledger.Exec.{ok, Error, fallible, query, statement}
use nonprofit_ledger.Exec
use nonprofit_ledger.Auth.Session.{new_session_manager}
use nonprofit_ledger.Auth.Middleware.{Web}
use nonprofit_ledger.Database.{Sqlite, no_change, applied, enter_wal, open_db, run_migrations}
use nonprofit_ledger.Disk
use nonprofit_ledger.Disk.{Host, quiet}
use nonprofit_ledger.Api.Routes.{register_routes, serve}
use nonprofit_ledger.Api.Routes.Served.{Served, nothing, request, backup}
use nonprofit_ledger.Ledger.Books.History.{Reach-IsContinued, empty-IsBooks}
use nonprofit_ledger.Ledger.Books.Trail.{Reach-IsAudited}
use nonprofit_ledger.Ledger.Books.Classified.{Reach-AllClassified}
use nonprofit_ledger.Ledger.Books.Consistent.{Reach-IsConsistent}
use nonprofit_ledger.Server.{
  Settings, settings, env_or_default, prepare, run_once, bootstrap_first_admin,
}
use nonprofit_ledger.Server.Main.{
  Machine, Serving, every, server_of, serving, new_ticker, start_backup_scheduler, main,
}
use nonprofit_ledger.Server.Process.{IsInOrder, IsKept, main-IsKept}
use nonprofit_ledger.Ledger.Posting.Accepts.{calm}
use nonprofit_ledger.Api.Http.{reply, status_ok}
use nonprofit_ledger.Api.Session.{login_handler}
use nonprofit_ledger.Server.{spell}
use nonprofit_ledger.Server.Bootstrap
use nonprofit_ledger.Server.Bootstrap.{drawn}
use nonprofit_ledger.Server.Started.{first_start}
use nonprofit_ledger.Tests.{conn}
use nonprofit_ledger.Tests.Ledger.{donation-Fits}
use nonprofit_ledger.Tests.History.{first_books-Reach}
use nonprofit_ledger.Tests.Books.{first_books, empty-IsConsistent}
use nonprofit_ledger.Tests.Api.{sessions, post_entry}
use nonprofit_ledger.Tests.Backup.{text, clock, host}
use nonprofit_ledger.Tests.Requests.{reader}
use nonprofit_ledger.Tests.Server.{sample_crypto, ones, random, reads_back, json, log_in}

abbrev books_file : Sqlite
books_file = record {
  image = λ db. [];
  load = λ p d. some first_books;
  wal_mode = λ p d. d;
  integrity = λ p d. "ok";
}

-- Nothing is set, so that every setting has its default.
abbrev machine : Machine
machine = record {
  env = λ key. "";
  parse_duration = λ text. some (pos 86400);
  atoi = λ text. some (pos 7);
  path_of = λ text. record { dir = "."; name = text };
  conn = conn;
  text = text;
  crypto = sample_crypto;
  sqlite = books_file;
  migrator = λ dir db. no_change;
  random = none;
  salt = none;
  clock = clock;
}

abbrev chosen : Settings
chosen = record {
  db_path = "./ledger.db";
  port = "8080";
  migrations_dir = "server/db/migrations";
  backup_dir = "./backups";
  backup_interval = pos 86400;
  backup_retain = pos 7;
}

abbrev prepared : Host
prepared = record host { state = record { db = first_books; faults = [] } }

abbrev up_and_running : Serving
up_and_running = record {
  addr = ":8080";
  printed = none;
  ticker = every 86400;
  sessions = new_session_manager "";
  settings = chosen;
  host = run_once conn text books_file "./backups" 7 clock prepared;
}

settings-machine : settings machine.parse_duration machine.atoi machine.env ≡ some chosen
unfolding settings env_or_default
settings-machine = refl

main-machine : server_of (main machine host) ≡ some up_and_running
unfolding main settings env_or_default prepare open_db enter_wal run_migrations
    bootstrap_first_admin start_backup_scheduler new_ticker fallible query statement Exec.◌>>=◌
    Disk.◌>>=◌
main-machine = refl

first_books-IsInOrder : IsInOrder first_books
first_books-IsInOrder = record {
  books = (Reach-IsContinued empty-IsBooks first_books-Reach).books;
  audited = (Reach-IsAudited tt first_books-Reach).1;
  rows = Reach-IsConsistent empty-IsConsistent first_books-Reach;
  classified = Reach-AllClassified tt first_books-Reach;
}

-- The admin posts an entry, after a second backup.
abbrev second_run : Host
second_run = run_once conn text books_file "./backups" 7 clock up_and_running.host

abbrev by_admin : Web sessions
by_admin = record { session = some 1; state = second_run.state }

abbrev answered : Db
answered = (serve sessions (register_routes sessions reader) post_entry by_admin).1.state.db

answered-Served : Served sessions up_and_running.host.state.db answered
answered-Served =
    request reader post_entry by_admin (donation-Fits, tt)
      (backup conn text books_file "./backups" 7 clock up_and_running.host nothing)

main-IsKept_example : IsKept first_books answered
main-IsKept_example =
    main-IsKept sessions machine chosen host up_and_running first_books answered settings-machine
      refl first_books-IsInOrder main-machine answered-Served

-- A machine with no database file yet, whose migrations make empty tables.
abbrev fresh : Machine
fresh = record machine {
  sqlite = record books_file { load = λ p d. some empty };
  migrator = λ dir db. applied empty;
  random = some random;
  salt = some (ones 32);
}

settings-fresh : settings fresh.parse_duration fresh.atoi fresh.env ≡ some chosen
unfolding settings env_or_default
settings-fresh = refl

first_start_example :
    (sv : Serving) × (u : UserRow) × (main fresh (quiet empty host.disk) ≡ serving sv)
    × (sv.addr ≡ ":8080")
    × (sv.printed ≡ some ("admin", spell (drawn random)))
    × (sv.host.state.db.users ≡ u ∷ [])
    × ((u.username ≡ "admin") × (u.role ≡ "admin") × (u.active ≡ 1) × (u.must_change_password ≡ 1))
    × (bootstrap_first_admin conn sample_crypto
          (some random)
          (some (ones 32))
          (Bootstrap.calm sv.host.state.db)
        ≡ (ok none, Bootstrap.calm sv.host.state.db))
    × (login_handler json sample_crypto sessions log_in none
          (record { session = none; state = Bootstrap.calm sv.host.state.db })
        ≡ (
          reply 200 status_ok,
          record { session = some u.id; state = Bootstrap.calm sv.host.state.db },
        ))
first_start_example =
    first_start fresh chosen random (ones 32) empty empty host.disk 86399 7 sessions json log_in
      none none settings-fresh refl refl refl refl refl refl refl
      (reads_back (spell (drawn random))) refl refl
