-- ===== src/Tests/Api.antt =====
-- Requests to the server of the sample office.
use nonprofit_ledger.Prelude.{
  ℕ, String, ◌≡◌, refl, subst, ap, sym, Bool, false, Option, none, some, [],
}
use nonprofit_ledger.Exec.{State, Result, ok, err}
use nonprofit_ledger.Auth.Session.{SessionManager}
use nonprofit_ledger.Auth.Middleware.{Web}
use nonprofit_ledger.Auth.Middleware.Gates.{IsSignedIn}
use nonprofit_ledger.Api.Http.{Request, refuse}
use nonprofit_ledger.Disk.{no_such_dir}
use nonprofit_ledger.Api.Routes.{Server, public_routes, shared_routes, register_routes, serve}
use nonprofit_ledger.Api.Routes.Guards.{
  IsTurnedAway, IsAnonymous, IsNoAdmin, anonymous-IsTurnedAway, non_admin-IsTurnedAway,
}
use nonprofit_ledger.Users.{User, by_id, scan_user}
use nonprofit_ledger.Exec.{query, statement, ◌>>=◌}
use nonprofit_ledger.Audit
use nonprofit_ledger.Prelude.{◌∷◌}
use nonprofit_ledger.Exec.{fallible}
use nonprofit_ledger.Auth.Middleware.{require_auth}
use nonprofit_ledger.Ledger.Posting.{post_journal_entry}
use nonprofit_ledger.Api.Http.{Json, reply}
use nonprofit_ledger.Api.Http.{status_ok}
use nonprofit_ledger.Users.{update_users, deactivate}
use nonprofit_ledger.Auth.Middleware.Gates.{IsRefused}
use nonprofit_ledger.Auth.Middleware.Deactivated.{deactivated-IsRefused}
use nonprofit_ledger.Tests.{user_row, conn, start, office, donation}
use nonprofit_ledger.Tests.Ledger.{with_donation}

-- A session is the user id that it holds.
abbrev pub sessions : SessionManager
sessions = record {
  Session = Option ℕ;
  get_user_id = λ s. s;
  renew_token = λ s. some s;
  put_user_id = λ id s. some id;
  destroy = λ s. some none;
}

abbrev pub server : Server
server = record {
  conn = conn;
  json = record {
    login = λ b. none;
    create_user = λ b. none;
    update_role = λ b. none;
    lock_period = λ b. none;
    post_journal_entry = λ b. none;
  };
  crypto = record {
    id_key = λ password salt time memory threads length. [];
    encode = λ b. "";
    decode = λ t. none;
    decimal = λ n. "";
    scan_version = λ t. none;
    scan_parameters = λ t. none;
  };
  salt = none;
  listing = no_such_dir;
}

abbrev with_session : Option ℕ → Web sessions
with_session s = record { session = s; state = start }

abbrev pub post_entry : Request
post_entry = record { method = "POST"; path = "/api/ledger/entries"; body = "" }

abbrev add_user : Request
add_user = record { method = "POST"; path = "/api/users"; body = "" }

-- Whether the user that a call returned is active, and the role.
abbrev active_of : Result User → Bool
active_of (ok u) = u.active
active_of (err e) = false

abbrev role_of : Result User → String
role_of (ok u) = u.role
role_of (err e) = ""

signed-loaded :
    (id : ℕ) {u : User} {t : State}
    → IsSignedIn sessions refuse (with_session (some id)) u t
    → by_id id start ≡ (ok u, t)
signed-loaded id {u} {t} signed =
    let same : id ≡ signed.user_id = cc in
    subst (λ i. by_id i start ≡ (ok u, t)) (sym same) signed.loaded

-- User 3 of the office is not active.
deactivated-IsAnonymous : IsAnonymous sessions (with_session (some 3))
unfolding by_id query statement scan_user ◌>>=◌
deactivated-IsAnonymous u t signed =
    let inactive : false ≡ u.active =
      ap (λ (p : Result User × State). active_of p.0) (signed-loaded 3 signed) in
    cc

anonymous-IsTurnedAway_example :
    IsTurnedAway sessions
      (with_session (some 3))
      (serve sessions (register_routes sessions server) post_entry (with_session (some 3)))
unfolding public_routes
anonymous-IsTurnedAway_example =
    anonymous-IsTurnedAway sessions server post_entry (with_session (some 3))
      deactivated-IsAnonymous refl

-- User 2 of the office is an external accountant.
accountant-IsNoAdmin : IsNoAdmin sessions (with_session (some 2))
unfolding by_id query statement scan_user ◌>>=◌
accountant-IsNoAdmin u t signed =
    let role : "external_accountant" ≡ u.role =
      ap (λ (p : Result User × State). role_of p.0) (signed-loaded 2 signed) in
    rw (sym role) refl

non_admin-IsTurnedAway_example :
    IsTurnedAway sessions
      (with_session (some 2))
      (serve sessions (register_routes sessions server) add_user (with_session (some 2)))
unfolding public_routes shared_routes
non_admin-IsTurnedAway_example =
    non_admin-IsTurnedAway sessions server add_user (with_session (some 2)) accountant-IsNoAdmin
      refl refl

-- A decoder that reads the donation of the office in every body, and an admin's request with it.
abbrev pub reads_donation : Json
reads_donation = record server.json {
  post_journal_entry = λ b. some (record {
    entry_date = donation.entry_date;
    memo = donation.memo;
    source = donation.source;
    lines = donation.lines;
  });
}

abbrev with_posted : Web sessions
with_posted = record { session = some 1; state = record { db = with_donation office; faults = [] } }

-- The office after its admin is deactivated.
abbrev without_admin : State
without_admin = record {
  db = record office {
    users = user_row 1 "admin" 0 ∷ user_row 2 "external_accountant" 1 ∷ user_row 3 "admin" 0 ∷ [];
  };
  faults = [];
}

deactivate-admin : deactivate 1 start ≡ (ok tt, without_admin)
unfolding deactivate update_users fallible statement ◌>>=◌
deactivate-admin = refl

deactivated-IsRefused_example :
    IsRefused sessions refuse 401
      (record { session = some 1; state = without_admin })
      (require_auth sessions refuse
        (λ cu w. (reply 200 status_ok, w))
        none
        (record { session = some 1; state = without_admin }))
deactivated-IsRefused_example =
    deactivated-IsRefused sessions refuse 1 start without_admin (λ cu w. (reply 200 status_ok, w))
      none (record { session = some 1; state = without_admin }) deactivate-admin refl refl
