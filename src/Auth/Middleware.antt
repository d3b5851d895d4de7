-- ===== src/Auth/Middleware.antt =====
-- server/auth/middleware.go. A handler takes the CurrentUser of the request's context, if there is
-- one, and the session and the tables that it may change.
pub mod Gates
pub mod Deactivated
use nonprofit_ledger.Prelude.{
  ℕ, String, Bool, false, not, any, if◌then◌else◌, Option, none, some, List, ◌==◌,
}
use nonprofit_ledger.Exec.{State, Result, ok, err}
use nonprofit_ledger.Users.{User, by_id}
use nonprofit_ledger.Auth.Session.{SessionManager}

pub record CurrentUser : Type 0 where
  pub id : ℕ
  pub role : String

-- The session of the request, and the state of the tables.
pub record Web (sm : SessionManager) : Type 0 where
  pub session : sm.Session
  pub state : State

module _ (sm : SessionManager) (Response : Type 0) where
  abbrev pub Handler : Type 0
  Handler = Option CurrentUser → Web sm → Response × Web sm

module _ (sm : SessionManager) {Response : Type 0} (refuse : ℕ → Response) where
  -- The check on the loaded user, and the call of `next` with the new context.
  abbrev pub admit : Handler sm Response → Result User → Web sm → Response × Web sm
  admit next (err e) w = (refuse 401, w)
  admit next (ok user) w =
      if not user.active
      then (refuse 401, w)
      else next (some (record { id = user.id; role = user.role })) w

  abbrev pub authenticate : Handler sm Response → Option ℕ → Web sm → Response × Web sm
  authenticate next none w = (refuse 401, w)
  authenticate next (some user_id) w =
      let (r, state) = by_id user_id w.state in admit next r (record w { state = state })

  unfoldable pub require_auth : Handler sm Response → Handler sm Response
  unfolding by_id
  require_auth next cu w = authenticate next (sm.get_user_id w.session) w

  abbrev pub has_role : List String → Option CurrentUser → Bool
  has_role allowed none = false
  has_role allowed (some cu) = any (λ r. r == cu.role) allowed

  unfoldable pub require_role : List String → Handler sm Response → Handler sm Response
  require_role allowed next cu w = if has_role allowed cu then next cu w else (refuse 403, w)
