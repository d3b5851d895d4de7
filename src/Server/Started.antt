-- ===== src/Server/Started.antt =====
-- The first start of cmd/server/main.go, on a machine where no call fails.
use Prim.Native.String
use nonprofit_ledger.Prelude.{
  ℕ, ⊤, String, ◌≡◌, refl, ◌∙◌, ap, true, ltb, leb, suc, length, find, Option, none, some, List, [],
  ◌∷◌, ◌==◌, arith,
}
use nonprofit_ledger.Prelude.Int.{pos}
use nonprofit_ledger.Schema.{Db, UserRow}
use nonprofit_ledger.Exec.{Conn, State, Result, ok, err, tick, is_due, fallible, statement}
use nonprofit_ledger.Exec
use nonprofit_ledger.Users.{scan_user}
use nonprofit_ledger.Users.Created.{by_username-found}
use nonprofit_ledger.Auth.Session.{SessionManager, new_session_manager}
use nonprofit_ledger.Auth.Middleware.{CurrentUser}
use nonprofit_ledger.Auth.Password.{phc}
use nonprofit_ledger.Auth.Password.Roundtrip.{key, ReadsBack, verify-phc}
use nonprofit_ledger.Database.{Sqlite, Up, enter_wal, open_db, run_migrations}
use nonprofit_ledger.Disk
use nonprofit_ledger.Disk.{FilePath, Disk, Host, quiet, Sys, on_db, ◌>>=◌}
use nonprofit_ledger.Ledger.Frame.Startup.{run_scheduled-Keeps}
use nonprofit_ledger.Api.Http.{Request, Json, reply, status_ok}
use nonprofit_ledger.Api.Session.{login_handler}
use nonprofit_ledger.Server.{
  Settings, settings, spell, connect, bootstrap_first_admin, prepare, run_once,
}
use nonprofit_ledger.Server.Bootstrap.{
  calm, admin_row, with_admin, drawn, bootstrap_skips, bootstrap-calm,
}
use nonprofit_ledger.Server.Main.{
  Machine, Serving, serving, every, new_ticker, start_backup_scheduler, main, migrated,
  migrated_from, migrated_at,
}

-- A call that returns is followed by what comes after it.
sys-then :
    {A B : Type 0} (m : Sys A) (f : A → Sys B) (h : Host) {a : A} {v : Host}
    → m h ≡ (ok a, v)
    → (m >>= f) h ≡ f a v
unfolding ◌>>=◌
sys-then m f h e = ap (λ (p : Result _ × Host). Disk.resume p.0 f p.1) e

open_db-calm :
    (sqlite : Sqlite) (path : FilePath) (closed : Db) (disk : Disk) {db : Db}
    → sqlite.load path disk ≡ some db
    → open_db sqlite path (quiet closed disk) ≡ (ok db, quiet closed (sqlite.wal_mode path disk))
unfolding open_db enter_wal fallible statement ◌>>=◌
open_db-calm sqlite path closed disk loaded = rw loaded refl

run_migrations-calm :
    (migrator : String → Db → Up) (dir : String) (loaded : Db) (disk : Disk) {db : Db}
    → migrated (migrator dir loaded) loaded ≡ some db
    → on_db (run_migrations migrator dir) (quiet loaded disk) ≡ (ok tt, quiet db disk)
unfolding run_migrations fallible statement Exec.◌>>=◌
run_migrations-calm migrator dir loaded disk h = ground arith

module _ (m : Machine) (s : Settings) (random salt : List ℕ) (closed db : Db) (disk : Disk) where
  abbrev admitted : Db
  admitted = with_admin m.conn m.crypto random salt db

  abbrev wal_disk : Disk
  wal_disk = m.sqlite.wal_mode (m.path_of s.db_path) disk

  prepare-calm :
      (opened : Option Db)
      → m.sqlite.load (m.path_of s.db_path) disk ≡ opened
      → migrated_from m.migrator s.migrations_dir opened ≡ some db
      → leb 20 (length random) ≡ true
      → db.users ≡ []
      → prepare m.conn m.crypto
          (some random)
          (some salt)
          m.sqlite
          m.migrator
          (m.path_of s.db_path)
          s.migrations_dir
          (quiet closed disk)
        ≡ (ok (some ("admin", spell (drawn random))), quiet admitted wal_disk)
  unfolding prepare
  prepare-calm none opens h enough none_yet = absurd (ground arith)
  prepare-calm (some loaded) opens h enough none_yet =
      let last : ⊤ → Sys (Option (String × String)) =
        λ u. on_db (bootstrap_first_admin m.conn m.crypto (some random) (some salt)) in
      let rest : ⊤ → Sys (Option (String × String)) =
        λ u. on_db (run_migrations m.migrator s.migrations_dir) >>= last in
      sys-then (open_db m.sqlite (m.path_of s.db_path)) (λ x. connect x >>= rest)
        (quiet closed disk) (open_db-calm m.sqlite (m.path_of s.db_path) closed disk opens)
      ∙ sys-then (connect loaded) rest (quiet closed wal_disk) {v = quiet loaded wal_disk} refl
      ∙ sys-then (on_db (run_migrations m.migrator s.migrations_dir)) last (quiet loaded wal_disk)
          (run_migrations-calm m.migrator s.migrations_dir loaded wal_disk h)
      ∙ ap
          (λ (p : Result (Option (String × String)) × State).
            (p.0, record (quiet db wal_disk) { state = p.1 }))
          (bootstrap-calm m.conn m.crypto random salt db enough none_yet)

  -- What `main` serves with, then.
  abbrev served : ℕ → ℕ → Serving
  served period keep = record {
    addr = String.◌++◌ ":" s.port;
    printed = some ("admin", spell (drawn random));
    ticker = every (suc period);
    sessions = new_session_manager (m.env "LEDGER_COOKIE_SECURE");
    settings = s;
    host = run_once m.conn m.text m.sqlite s.backup_dir keep m.clock (quiet admitted wal_disk);
  }

  main-calm :
      (period keep : ℕ)
      → settings m.parse_duration m.atoi m.env ≡ some s
      → s.backup_interval ≡ pos (suc period)
      → s.backup_retain ≡ pos keep
      → migrated_at m s disk ≡ some db
      → db.users ≡ []
      → m.random ≡ some random
      → leb 20 (length random) ≡ true
      → m.salt ≡ some salt
      → main m (quiet closed disk) ≡ serving (served period keep)
  unfolding main start_backup_scheduler new_ticker
  main-calm period keep chosen ticks retains loaded none_yet draws enough salts =
      rw
        (
          chosen,
          draws,
          salts,
          prepare-calm (m.sqlite.load (m.path_of s.db_path) disk) refl loaded enough none_yet,
          ticks,
          retains,
        )
        refl

  -- The first backup leaves the users alone.
  served-users : (period keep : ℕ) → (served period keep).host.state.db.users ≡ admitted.users
  unfolding run_once
  served-users period keep =
      run_scheduled-Keeps (λ before after. after.users ≡ before.users) (λ x. refl)
        (λ a b c p q. q ∙ p) (λ before row. refl) m.conn m.text m.sqlite s.backup_dir keep m.clock
        (quiet admitted wal_disk)

  -- The first start: the settings read, the migrations bring the database file to tables without
  -- users, the random source gives at least 20 bytes for the password and bytes for the salt, the
  -- interval of the backups is positive, the number of snapshots to keep is not negative, and no call of the operating system or of the driver is made to fail.
  -- Then `main` gets as far as to serve, at the port of the settings, whatever becomes of the first
  -- backup; it has printed a name and a password, and the only user is an active admin who must
  -- change the password; a second start on these users makes none and prints nothing; and a login
  -- with what was printed, on the tables that the first backup left, when no call fails, is
  -- answered 200 and puts the id of that user into the renewed session, provided that the session
  -- manager renews the token and the encodings of the hash read back.
  pub first_start :
      (period keep : ℕ) (sm : SessionManager) (json : Json) (r : Request) (cu : Option CurrentUser)
      (session : sm.Session) {renewed : sm.Session}
      → settings m.parse_duration m.atoi m.env ≡ some s
      → s.backup_interval ≡ pos (suc period)
      → s.backup_retain ≡ pos keep
      → migrated_at m s disk ≡ some db
      → db.users ≡ []
      → m.random ≡ some random
      → leb 20 (length random) ≡ true
      → m.salt ≡ some salt
      → ReadsBack m.crypto (spell (drawn random)) salt
      → json.login r.body ≡ some (record { username = "admin"; password = spell (drawn random) })
      → sm.renew_token session ≡ some renewed
      → (sv : Serving) × (u : UserRow) × (main m (quiet closed disk) ≡ serving sv)
        × (sv.addr ≡ String.◌++◌ ":" s.port)
        × (sv.printed ≡ some ("admin", spell (drawn random)))
        × (sv.host.state.db.users ≡ u ∷ [])
        × ((u.username ≡ "admin")
            × (u.role ≡ "admin")
            × (u.active ≡ 1)
            × (u.must_change_password ≡ 1))
        × (bootstrap_first_admin m.conn m.crypto m.random m.salt (calm sv.host.state.db)
            ≡ (ok none, calm sv.host.state.db))
        × (login_handler json m.crypto sm r cu
              (record { session = session; state = calm sv.host.state.db })
            ≡ (
              reply 200 status_ok,
              record { session = sm.put_user_id u.id renewed; state = calm sv.host.state.db },
            ))
  unfolding login_handler scan_user
  first_start period keep sm json r cu session chosen ticks retains loaded none_yet draws enough
        salts encodes sent renews =
      let row =
        admin_row m.conn (phc m.crypto salt (key m.crypto (spell (drawn random)) salt)) db in
      let users = served-users period keep in
      let accepted = verify-phc m.crypto (spell (drawn random)) salt encodes in
      let tables = calm (served period keep).host.state.db in
      let found : find (λ (q : UserRow). q.username == "admin") tables.db.users ≡ some row =
        ap (find (λ (q : UserRow). q.username == "admin")) users in
      let filled : ltb 0 (length tables.db.users) ≡ true =
        ap (λ (rows : List UserRow). ltb 0 (length rows)) users in
      (
        served period keep,
        row,
        main-calm period keep chosen ticks retains loaded none_yet draws enough salts,
        refl,
        refl,
        users,
        (refl, refl, refl, refl),
        bootstrap_skips m.conn m.crypto m.random m.salt tables filled refl,
        rw (sent, by_username-found tables refl "admin" row found, accepted, renews) refl,
      )
