-- ===== src/Api/Routes/Served.antt =====
-- What the requests that the server of server/api/routes.go answers do to the tables.
use nonprofit_ledger.Prelude.{
  ℕ, String, refl, sym, ◌∙◌, subst, inl, inr, Option-cases, find, All, All-find, All-append, none,
  some, List, [], ◌∷◌, ◌++◌,
}
use nonprofit_ledger.Schema.{Db}
use nonprofit_ledger.Exec.{Conn, Error}
use nonprofit_ledger.Database.{Sqlite}
use nonprofit_ledger.Disk.{Host}
use nonprofit_ledger.Backup.{Clock}
use nonprofit_ledger.Server.{run_once}
use nonprofit_ledger.Auth.Session.{SessionManager}
use nonprofit_ledger.Auth.Middleware.{Web, Handler, require_auth, require_role}
use nonprofit_ledger.Auth.Middleware.Gates.{current, require_auth_lem, require_role_lem}
use nonprofit_ledger.Ledger.Books.History.{Reach, here, next, back_up}
use nonprofit_ledger.Api.Http.{Request, Response, refuse}
use nonprofit_ledger.Api.Users.{}
use nonprofit_ledger.Api.Ledger.{}
use nonprofit_ledger.Api.Routes.{
  Route, Server, admin_only, all_roles, public_routes, admin_routes, shared_routes, fits,
  register_routes, serve,
}
use nonprofit_ledger.Api.Routes.Guards.{signed-db}
use nonprofit_ledger.Api.Routes.Steps.{
  FitsRequest, IsOneStep, IsSingle, post-IsSingle, lock-IsSingle, create-IsSingle, role-IsSingle,
  dismiss-IsSingle, trial_balance-IsSingle, list-IsSingle, backup-IsSingle, health-IsSingle,
  logout-IsSingle, login-IsSingle,
}

module _ (sm : SessionManager) where
  -- Behind the middlewares.
  signed-IsOneStep :
      (roles : List String) (inner : Handler sm Response) (w : Web sm)
      → IsSingle sm inner
      → IsOneStep w.state.db
          (require_auth sm refuse (require_role sm refuse roles inner) none w).1.state.db
  signed-IsOneStep roles inner w h =
      elim (require_auth_lem sm refuse (require_role sm refuse roles inner) none w) [
        | inl refused ↦ inl refused.db
        | inr (u, t, signed, e) ↦
            let same = signed-db sm signed in
            elim (require_role_lem sm refuse roles inner (current u) (record w { state = t })) [
              | inl refused ↦ rw e (inl (refused.db ∙ same))
              | inr (listed, e') ↦
                  rw (e, e')
                    (subst
                      (λ db.
                        IsOneStep db (inner (some (current u)) (record w { state = t })).1.state.db)
                      same (h (some (current u)) (record w { state = t })))
            ]
      ]

  admin_only-IsSingle :
      (inner : Handler sm Response) (w : Web sm)
      → IsSingle sm inner
      → IsOneStep w.state.db (admin_only sm inner none w).1.state.db
  unfolding admin_only
  admin_only-IsSingle inner w h = signed-IsOneStep ("admin" ∷ []) inner w h

  all_roles-IsSingle :
      (inner : Handler sm Response) (w : Web sm)
      → IsSingle sm inner
      → IsOneStep w.state.db (all_roles sm inner none w).1.state.db
  unfolding all_roles
  all_roles-IsSingle inner w h =
      signed-IsOneStep ("admin" ∷ "staff_bookkeeper" ∷ "external_accountant" ∷ []) inner w h

  module _ (server : Server) (r : Request) (w : Web sm) where
    open server use {conn, json, crypto, salt, listing}

    -- What the handler of a route does to the tables.
    abbrev Single : Route sm → Type 0
    Single p = IsOneStep w.state.db (p.handler r none w).1.state.db

    public_routes-Single : All Single (public_routes sm server)
    unfolding public_routes
    public_routes-Single = (
      health-IsSingle sm none w,
      (login-IsSingle sm json crypto r none w, (logout-IsSingle sm json crypto none w, tt)),
    )

    admin_routes-Single : All Single (admin_routes sm server)
    unfolding admin_routes
    admin_routes-Single = (
      admin_only-IsSingle _ w (list-IsSingle sm),
      (
        admin_only-IsSingle _ w (create-IsSingle sm conn json r crypto salt),
        (
          admin_only-IsSingle _ w (role-IsSingle sm json r),
          (
            admin_only-IsSingle _ w (dismiss-IsSingle sm r),
            (
              admin_only-IsSingle _ w (lock-IsSingle sm conn json r),
              (admin_only-IsSingle _ w (backup-IsSingle sm listing), tt),
            ),
          ),
        ),
      ),
    )

    shared_routes-Single : FitsRequest json r → All Single (shared_routes sm server)
    unfolding shared_routes
    shared_routes-Single fit = (
      all_roles-IsSingle _ w (trial_balance-IsSingle sm),
      (all_roles-IsSingle _ w (post-IsSingle sm conn json r fit), tt),
    )

    -- A request makes at most one call of a writing function, whatever route it takes.
    serve-IsOneStep :
        FitsRequest json r
        → IsOneStep w.state.db (serve sm (register_routes sm server) r w).1.state.db
    unfolding serve register_routes
    serve-IsOneStep fit =
        let routes = register_routes sm server in
        let all =
          All-append Single (public_routes sm server)
            (admin_routes sm server ++ shared_routes sm server) public_routes-Single
            (All-append Single (admin_routes sm server) (shared_routes sm server)
              admin_routes-Single (shared_routes-Single fit)) in
        elim (Option-cases (find (fits sm r) routes)) [
          | inl nothing ↦ rw nothing (inl refl)
          | inr (p, e) ↦ rw e (All-find Single (fits sm r) routes all e)
        ]

  -- The tables while the server answers requests and the scheduler makes backups, one after the other:
  -- each request with the session it comes with, each with its own connection, clock and random source,
  -- and faults.
  pub data Served (before : Db) : Db → Type 1 where
    nothing : Served before before
    request :
        (server : Server) (r : Request) (w : Web sm)
        → FitsRequest server.json r
        → Served before w.state.db
        → Served before (serve sm (register_routes sm server) r w).1.state.db
    backup :
        (conn : Conn) (text : Error → String) (sqlite : Sqlite) (dir : String) (keep_n : ℕ)
        (clock : Clock) (h : Host)
        → Served before h.state.db
        → Served before (run_once conn text sqlite dir keep_n clock h).state.db

  extended :
      {before middle after : Db} → Reach before middle → IsOneStep middle after → Reach before after
  extended {before} r (inl same) = subst (Reach before) (sym same) r
  extended r (inr st) = next r st

  pub Served-Reach : {before after : Db} → Served before after → Reach before after
  unfolding run_once
  Served-Reach nothing = here
  Served-Reach (request server r w fit run) =
      extended (Served-Reach run) (serve-IsOneStep server r w fit)
  Served-Reach (backup conn text sqlite dir keep_n clock h run) =
      next (Served-Reach run) (back_up conn text sqlite dir keep_n clock h)
