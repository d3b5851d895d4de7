-- ===== src/Server/Run.antt =====
-- A process of cmd/server/main.go from its start on: the requests it answers and the backups it makes.
use nonprofit_ledger.Prelude.{
  ℕ, ⊤, String, ◌≡◌, refl, sym, ◌∙◌, ap, subst, Option, none, some, List, arith,
}
use nonprofit_ledger.Schema.{Db}
use nonprofit_ledger.Exec.{Conn, State, Result, ok, err, Error, fallible, statement}
use nonprofit_ledger.Exec
use nonprofit_ledger.Auth.Password.{Crypto}
use nonprofit_ledger.Database.{Sqlite, Up, enter_wal, open_db, run_migrations}
use nonprofit_ledger.Disk
use nonprofit_ledger.Disk.{FilePath, Host, Sys, on_db, ◌>>=◌}
use nonprofit_ledger.Backup.{run_scheduled}
use nonprofit_ledger.Prelude.Int.{ℤ, pos, negsuc}
use nonprofit_ledger.Server.{Settings, settings, connect, bootstrap_first_admin, prepare, run_once}
use nonprofit_ledger.Server.Main.{
  Machine, Ticker, panics, every, Serving, server_of, start_backup_scheduler, listen, after_prepare,
  start_with, main, migrated, migrated_from, migrated_at,
}
use nonprofit_ledger.Ledger.Books.History.{Reach, here, next, first_admin, back_up}

module _ {A B : Type 0} where
  resume-eq-ok :
      (r : Result A) (h : Host) (f : A → Sys B) {b : B} {t : Host}
      → Disk.resume r f h ≡ (ok b, t)
      → (a : A) × (r ≡ ok a) × (f a h ≡ (ok b, t))
  resume-eq-ok (ok a) h f e = (a, refl, e)
  resume-eq-ok (err x) h f e = absurd (ground arith)

  -- The two calls of a sequence that has returned.
  sys-eq-ok :
      (m : Sys A) (f : A → Sys B) (h : Host) {b : B} {t : Host}
      → (m >>= f) h ≡ (ok b, t)
      → (a : A) × (v : Host) × (m h ≡ (ok a, v)) × (f a v ≡ (ok b, t))
  unfolding ◌>>=◌
  sys-eq-ok m f h e =
      let (a, found, rest) = resume-eq-ok (m h).0 (m h).1 f e in
      (a, (m h).1, (λ i. (found i, (m h).1)), rest)

open_db-eq-ok :
    (sqlite : Sqlite) (path : FilePath) (h : Host) {db : Db} {t : Host}
    → open_db sqlite path h ≡ (ok db, t)
    → sqlite.load path h.disk ≡ some db
unfolding open_db enter_wal fallible statement ◌>>=◌
open_db-eq-ok sqlite path h e = ground arith

run_migrations-eq-ok :
    (migrator : String → Db → Up) (dir : String) (h : Host) {u : ⊤} {t : Host}
    → on_db (run_migrations migrator dir) h ≡ (ok u, t)
    → migrated (migrator dir h.state.db) h.state.db ≡ some t.state.db
unfolding run_migrations fallible statement Exec.◌>>=◌
run_migrations-eq-ok migrator dir h e = ground arith

pub join : {a b c : Db} → Reach a b → Reach b c → Reach a c
join r here = r
join r (next q st) = next (join r q) st

-- A start that gets past the database leaves the tables of the file as migrated, but for the first
-- admin.
prepare-Reach :
    (conn : Conn) (crypto : Crypto) (random salt : Option (List ℕ)) (sqlite : Sqlite)
    (migrator : String → Db → Up) (path : FilePath) (dir : String) (h : Host)
    {printed : Option (String × String)} {t : Host}
    → prepare conn crypto random salt sqlite migrator path dir h ≡ (ok printed, t)
    → (db : Db) × (migrated_from migrator dir (sqlite.load path h.disk) ≡ some db)
      × Reach db t.state.db
unfolding prepare
prepare-Reach conn crypto random salt sqlite migrator path dir h {printed} {t} e =
    let last : ⊤ → Sys (Option (String × String)) =
      λ u. on_db (bootstrap_first_admin conn crypto random salt) in
    let rest : ⊤ → Sys (Option (String × String)) =
      λ u. on_db (run_migrations migrator dir) >>= last in
    let (db, v₁, opened, e₁) = sys-eq-ok (open_db sqlite path) (λ x. connect x >>= rest) h e in
    let (u, v₂, connected, e₂) = sys-eq-ok (connect db) rest v₁ e₁ in
    let (u', v₃, ran, e₃) = sys-eq-ok (on_db (run_migrations migrator dir)) last v₂ e₂ in
    let loaded = open_db-eq-ok sqlite path h opened in
    let tables : v₂.state.db ≡ db = ap (λ (p : Result ⊤ × Host). p.1.state.db) (sym connected) in
    let up = run_migrations-eq-ok migrator dir v₂ ran in
    let ended : (bootstrap_first_admin conn crypto random salt v₃.state).1.db ≡ t.state.db =
      ap (λ (p : Result (Option (String × String)) × Host). p.1.state.db) e₃ in
    (
      v₃.state.db,
      ap (migrated_from migrator dir) loaded
          ∙ ap (λ x. migrated (migrator dir x) x) (sym tables)
          ∙ up,
      subst (Reach v₃.state.db) ended (next here (first_admin conn crypto random salt v₃.state)),
    )

module _ (m : Machine) where
  scheduler-Reach :
      (dir : String) (interval retain : ℤ) (h : Host) {ticker : Ticker} {t : Host}
      → start_backup_scheduler m dir interval retain h ≡ some (ticker, t)
      → Reach h.state.db t.state.db
  unfolding start_backup_scheduler run_once
  scheduler-Reach dir interval (negsuc n) h e = absurd (ground arith)
  scheduler-Reach dir interval (pos retain) h {t} e =
      let same : (run_scheduled m.conn m.text m.sqlite dir retain m.clock h).1.state.db
          ≡ t.state.db =
        ground arith in
      subst (Reach h.state.db) same
        (next here (back_up m.conn m.text m.sqlite dir retain m.clock h))

  listen-Reach :
      (s : Settings) (printed : Option (String × String)) (h : Host) (r : Option (Ticker × Host))
      {sv : Serving}
      → ((ticker : Ticker) (t : Host) → r ≡ some (ticker, t) → Reach h.state.db t.state.db)
      → server_of (listen m s printed r) ≡ some sv
      → Reach h.state.db sv.host.state.db
  listen-Reach s printed h none k e = absurd (ground arith)
  listen-Reach s printed h (some (panics, t)) {sv} k e =
      let same : t.state.db ≡ sv.host.state.db = ground arith in
      subst (Reach h.state.db) same (k panics t refl)
  listen-Reach s printed h (some (every n, t)) {sv} k e =
      let same : t.state.db ≡ sv.host.state.db = ground arith in
      subst (Reach h.state.db) same (k (every n) t refl)

  after_prepare-Reach :
      (s : Settings) (r : Result (Option (String × String))) (h : Host) {sv : Serving}
      → server_of (after_prepare m s r h) ≡ some sv
      → (printed : Option (String × String)) × (r ≡ ok printed) × Reach h.state.db sv.host.state.db
  after_prepare-Reach s (err x) h e = absurd (ground arith)
  after_prepare-Reach s (ok printed) h e = (
    printed,
    refl,
    listen-Reach s printed h _
        (λ ticker t. scheduler-Reach s.backup_dir s.backup_interval s.backup_retain h) e,
  )

  -- What a start that serves has made of the tables of its file.
  start_with-Reach :
      (chosen : Option Settings) (h : Host) {sv : Serving}
      → server_of (start_with m chosen h) ≡ some sv
      → (s : Settings) × (db : Db) × (chosen ≡ some s)
        × (migrated_at m s h.disk ≡ some db)
        × Reach db sv.host.state.db
  start_with-Reach none h e = absurd (ground arith)
  start_with-Reach (some s) h {sv} e =
      let run =
        prepare m.conn m.crypto m.random m.salt m.sqlite m.migrator (m.path_of s.db_path)
          s.migrations_dir h in
      let (printed, ended, r) = after_prepare-Reach s run.0 run.1 e in
      let (db, loaded, first) =
        prepare-Reach m.conn m.crypto m.random m.salt m.sqlite m.migrator (m.path_of s.db_path)
          s.migrations_dir h {t = run.1} (λ i. (ended i, run.1)) in
      (s, db, refl, loaded, join first r)

  pub main-Reach :
      (h : Host) {sv : Serving}
      → server_of (main m h) ≡ some sv
      → (s : Settings) × (db : Db) × (settings m.parse_duration m.atoi m.env ≡ some s)
        × (migrated_at m s h.disk ≡ some db)
        × Reach db sv.host.state.db
  unfolding main
  main-Reach h e = start_with-Reach (settings m.parse_duration m.atoi m.env) h e
