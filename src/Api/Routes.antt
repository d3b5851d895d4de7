-- ===== src/Api/Routes.antt =====
-- `RegisterRoutes` of server/api/routes.go, and the choice that http.ServeMux makes among the
-- patterns: none of them overlap, so the first that fits is the one.
pub mod Guards
pub mod Attribution
pub mod Steps
pub mod Served
pub mod Accepted
use nonprofit_ledger.Prelude.{
  ℕ, String, Bool, true, false, ◌&&◌, ◌||◌, not, any, find, if◌then◌else◌, Option, none, some, List,
  [], ◌∷◌, ◌++◌, ◌==◌,
}
use nonprofit_ledger.Prelude.Text.{split}
use nonprofit_ledger.Exec.{Conn, State}
use nonprofit_ledger.Auth.Session.{SessionManager}
use nonprofit_ledger.Auth.Middleware.{CurrentUser, Web, Handler, require_auth, require_role}
use nonprofit_ledger.Auth.Password.{Crypto}
use nonprofit_ledger.Api.Http.{Request, Json, Response, reply, refuse, plain}
use nonprofit_ledger.Api.Session.{health_handler, login_handler, logout_handler}
use nonprofit_ledger.Api.Users.{
  list_users_handler, create_user_handler, update_role_handler, deactivate_user_handler,
}
use nonprofit_ledger.Api.Backup.{backup_status_handler}
use nonprofit_ledger.Disk.{Listing}
use nonprofit_ledger.Api.Ledger.{
  trial_balance_handler, lock_period_handler, post_journal_entry_handler,
}

pub data Segment : Type 0 where
  lit : String → Segment
  id : Segment

-- A route without a method takes all methods.
pub record Route (sm : SessionManager) : Type 0 where
  pub method : Option String
  pub pattern : List Segment
  pub handler : Request → Handler sm Response

abbrev pub fits_segment : Segment → String → Bool
fits_segment (lit text) part = text == part
fits_segment id part = not (part == "")

abbrev pub fits_path : List Segment → List String → Bool
fits_path [] [] = true
fits_path [] (p ∷ ps) = false
fits_path (s ∷ ss) [] = false
fits_path (s ∷ ss) (p ∷ ps) = fits_segment s p && fits_path ss ps

-- A pattern for GET takes HEAD too.
abbrev pub fits_method : Option String → String → Bool
fits_method none method = true
fits_method (some m) method = m == method || (m == "GET" && method == "HEAD")

-- The environment of one request: the connection, the decoder, the cryptography, the salt that the
-- random source gives, and the listing of the backup directory.
pub record Server : Type 0 where
  pub conn : Conn
  pub json : Json
  pub crypto : Crypto
  pub salt : Option (List ℕ)
  pub listing : Listing

module _ (sm : SessionManager) where
  unfoldable pub admin_only : Handler sm Response → Handler sm Response
  unfolding require_auth require_role
  admin_only next = require_auth sm refuse (require_role sm refuse ("admin" ∷ []) next)

  unfoldable pub all_roles : Handler sm Response → Handler sm Response
  unfolding require_auth require_role
  all_roles next =
      require_auth sm refuse
        (require_role sm refuse ("admin" ∷ "staff_bookkeeper" ∷ "external_accountant" ∷ []) next)

  abbrev pub route : Option String → List Segment → (Request → Handler sm Response) → Route sm
  route method pattern handler = record { method = method; pattern = pattern; handler = handler }

  module _ (server : Server) where
    open server use {conn, json, crypto, salt, listing}

    unfoldable pub public_routes : List (Route sm)
    public_routes =
        route none (lit "" ∷ lit "healthz" ∷ []) (λ r. health_handler sm)
        ∷ route none (lit "" ∷ lit "api" ∷ lit "auth" ∷ lit "login" ∷ [])
            (login_handler json crypto sm)
        ∷ route none (lit "" ∷ lit "api" ∷ lit "auth" ∷ lit "logout" ∷ [])
            (λ r. logout_handler json crypto sm)
        ∷ []

    unfoldable pub admin_routes : List (Route sm)
    admin_routes =
        route (some "GET") (lit "" ∷ lit "api" ∷ lit "users" ∷ [])
          (λ r. admin_only (list_users_handler sm))
        ∷ route (some "POST") (lit "" ∷ lit "api" ∷ lit "users" ∷ [])
            (λ r. admin_only (create_user_handler sm conn json crypto salt r))
        ∷ route (some "PATCH") (lit "" ∷ lit "api" ∷ lit "users" ∷ id ∷ lit "role" ∷ [])
            (λ r. admin_only (update_role_handler sm json r))
        ∷ route (some "POST") (lit "" ∷ lit "api" ∷ lit "users" ∷ id ∷ lit "deactivate" ∷ [])
            (λ r. admin_only (deactivate_user_handler sm r))
        ∷ route (some "POST") (lit "" ∷ lit "api" ∷ lit "org" ∷ lit "period-lock" ∷ [])
            (λ r. admin_only (lock_period_handler sm conn json r))
        ∷ route (some "GET") (lit "" ∷ lit "api" ∷ lit "backup" ∷ lit "status" ∷ [])
            (λ r. admin_only (backup_status_handler sm listing))
        ∷ []

    unfoldable pub shared_routes : List (Route sm)
    shared_routes =
        route (some "GET") (lit "" ∷ lit "api" ∷ lit "reports" ∷ lit "trial-balance" ∷ [])
          (λ r. all_roles (trial_balance_handler sm))
        ∷ route (some "POST") (lit "" ∷ lit "api" ∷ lit "ledger" ∷ lit "entries" ∷ [])
            (λ r. all_roles (post_journal_entry_handler sm conn json r))
        ∷ []

    unfoldable pub register_routes : List (Route sm)
    unfolding public_routes admin_routes shared_routes
    register_routes = public_routes ++ (admin_routes ++ shared_routes)

  abbrev pub fits : Request → Route sm → Bool
  fits r p = fits_path p.pattern (split b'/' r.path) && fits_method p.method r.method

  abbrev pub knows_path : Request → Route sm → Bool
  knows_path r p = fits_path p.pattern (split b'/' r.path)

  abbrev pub serve_found :
      List (Route sm) → Option (Route sm) → Request → Web sm → Response × Web sm
  serve_found routes (some p) r w = p.handler r none w
  serve_found routes none r w =
      (reply (if any (knows_path r) routes then 405 else 404) (plain "not found"), w)

  unfoldable pub serve : List (Route sm) → Request → Web sm → Response × Web sm
  serve routes r w = serve_found routes (find (fits r) routes) r w
