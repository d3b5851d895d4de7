-- ===== src/Auth/Session.antt =====
-- server/auth/session.go, and the session manager (github.com/alexedwards/scs) as its users see it.
use nonprofit_ledger.Prelude.{ℕ, String, ◌*◌, Bool, true, not, if◌then◌else◌, Option, ◌==◌}

-- The session of a request: what the manager loads for it, and the four calls that the handlers
-- make. A call that may fail returns `none` then.
pub record SessionManager : Type 1 where
  pub Session : Type 0
  pub get_user_id : Session → Option ℕ
  pub renew_token : Session → Option Session
  pub put_user_id : ℕ → Session → Session
  pub destroy : Session → Option Session

-- What `NewSessionManager` sets; times are in seconds.
pub record SessionSettings : Type 0 where
  pub lifetime : ℕ
  pub idle_timeout : ℕ
  pub cookie_name : String
  pub cookie_http_only : Bool
  pub cookie_same_site_lax : Bool
  pub cookie_secure : Bool
  pub cookie_persist : Bool

-- Over the value of LEDGER_COOKIE_SECURE, which is "" where it is not set.
unfoldable pub cookie_secure : String → Bool
cookie_secure v = if v == "" then true else not (v == "false")

unfoldable pub new_session_manager : String → SessionSettings
unfolding cookie_secure
new_session_manager v = record {
  lifetime = 12 * 3600;
  idle_timeout = 2 * 3600;
  cookie_name = "ledger_session";
  cookie_http_only = true;
  cookie_same_site_lax = true;
  cookie_secure = cookie_secure v;
  cookie_persist = true;
}
