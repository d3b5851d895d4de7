-- ===== src/Server/Process.antt =====
-- The whole process of cmd/server/main.go: its start, the requests it answers, and the backups it
-- makes.
use nonprofit_ledger.Prelude.{◌≡◌, sym, ◌∙◌, ap, subst, some}
use nonprofit_ledger.Schema.{Db}
use nonprofit_ledger.Disk.{Host}
use nonprofit_ledger.Auth.Session.{SessionManager}
use nonprofit_ledger.Server.{Settings, settings}
use nonprofit_ledger.Server.Main.{Machine, Serving, server_of, main, migrated_at}
use nonprofit_ledger.Server.Run.{join, main-Reach}
use nonprofit_ledger.Api.Routes.Served.{Served, Served-Reach}
use nonprofit_ledger.Ledger.Books.{IsBooks}
use nonprofit_ledger.Ledger.Books.History.{Reach, IsContinued, Reach-IsContinued}
use nonprofit_ledger.Ledger.Books.Rows.{IsConsistent}
use nonprofit_ledger.Ledger.Books.Consistent.{Reach-IsConsistent}
use nonprofit_ledger.Ledger.Books.Classified.{AllClassified, Reach-AllClassified}
use nonprofit_ledger.Ledger.Books.Credentials.{KeepsCredentials, Reach-KeepsCredentials}
use nonprofit_ledger.Ledger.Books.Trail.{IsGrown, IsAudited, Reach-IsAudited}

-- Tables in which everything is in order.
pub record IsInOrder (db : Db) : Type 0 where
  pub books : IsBooks db
  pub audited : IsAudited db
  pub rows : IsConsistent db
  pub classified : AllClassified db

-- What a process makes of tables in order.
pub record IsKept (before after : Db) : Type 0 where
  pub in_order : IsInOrder after
  pub journal : IsContinued before after
  pub audit_log : IsGrown before after
  pub users : KeepsCredentials before after

Reach-IsKept : {before after : Db} → IsInOrder before → Reach before after → IsKept before after
Reach-IsKept h r =
    let continued = Reach-IsContinued h.books r in
    let (grown, named) = Reach-IsAudited h.audited r in
    record {
      in_order = record {
        books = continued.books;
        audited = named;
        rows = Reach-IsConsistent h.rows r;
        classified = Reach-AllClassified h.classified r;
      };
      journal = continued;
      audit_log = grown;
      users = Reach-KeepsCredentials r;
    }

-- A process is started with settings that read, on a database file that the migrations bring to tables
-- in order, and gets as far as to serve, even where the ticker of the backups then panics. Whatever requests it then answers, of whatever sessions, and
-- whatever backups it makes, in whatever order, and whichever calls of the driver fail, as long as the
-- totals of each posted entry fit an int64: every entry stays balanced, and each has a row in the audit
-- log that names it and who posted it; the journal and the audit log are append-only; ids, usernames
-- and codes stay distinct, roles, types and classes valid; every line has an account that exists, and
-- a category if that is an expense account; and no user is deleted or gets another id, name, password
-- hash or must_change_password flag.
pub main-IsKept :
    (sm : SessionManager) (m : Machine) (s : Settings) (h : Host) (sv : Serving) (before after : Db)
    → settings m.parse_duration m.atoi m.env ≡ some s
    → migrated_at m s h.disk ≡ some before
    → IsInOrder before
    → server_of (main m h) ≡ some sv
    → Served sm sv.host.state.db after
    → IsKept before after
main-IsKept sm m s h sv before after chosen loaded sound started run =
    let (s', db, chosen', loaded', r) = main-Reach m h started in
    let same : s ≡ s' = let both : some s ≡ some s' = sym chosen ∙ chosen' in cc in
    let tables : some before ≡ some db =
      sym loaded ∙ ap (λ x. migrated_at m x h.disk) same ∙ loaded' in
    let here : before ≡ db = cc in
    Reach-IsKept sound (subst (λ x. Reach x after) (sym here) (join r (Served-Reach sm run)))
