-- ===== src/Api/Session.antt =====
-- server/api/auth.go and health.go
pub mod Login
pub mod Dismissed
pub mod Lifecycle
use nonprofit_ledger.Prelude.{ℕ, String, not, if◌then◌else◌, Option, none, some}
use nonprofit_ledger.Exec.{Result, ok, err}
use nonprofit_ledger.Users.{User, by_username}
use nonprofit_ledger.Auth.Session.{SessionManager}
use nonprofit_ledger.Auth.Middleware.{Web, Handler}
use nonprofit_ledger.Auth.Password.{Crypto, verify_password}
use nonprofit_ledger.Api.Http.{Request, LoginRequest, Json, Response, reply, reply_error, status_ok}

unfoldable pub health_handler : (sm : SessionManager) → Handler sm Response
health_handler sm cu w = (reply 200 status_ok, w)

module _ (json : Json) (crypto : Crypto) (sm : SessionManager) where
  -- The end of a login: the token is renewed, then the id is put into the session.
  abbrev pub start_session : ℕ → Option sm.Session → Web sm → Response × Web sm
  start_session id none w = (reply_error 500 "internal error", w)
  start_session id (some renewed) w =
      (reply 200 status_ok, record w { session = sm.put_user_id id renewed })

  abbrev pub check_credentials : String → Result User → Web sm → Response × Web sm
  check_credentials password (err e) w = (reply_error 401 "invalid credentials", w)
  check_credentials password (ok user) w =
      if not user.active
      then (reply_error 401 "invalid credentials", w)
      else if not (verify_password crypto user.password_hash password)
      then (reply_error 401 "invalid credentials", w)
      else start_session user.id (sm.renew_token w.session) w

  abbrev pub log_in : Option LoginRequest → Web sm → Response × Web sm
  log_in none w = (reply_error 400 "invalid request body", w)
  log_in (some req) w =
      let (r, state) = by_username req.username w.state in
      check_credentials req.password r (record w { state = state })

  unfoldable pub login_handler : Request → Handler sm Response
  unfolding by_username verify_password
  login_handler r cu w = log_in (json.login r.body) w

  abbrev pub end_session : Option sm.Session → Web sm → Response × Web sm
  end_session none w = (reply_error 500 "internal error", w)
  end_session (some ended) w = (reply 200 status_ok, record w { session = ended })

  unfoldable pub logout_handler : Handler sm Response
  logout_handler cu w = end_session (sm.destroy w.session) w
