-- ===== src/Tests/Session.antt =====
-- The admin of the first start logs in, makes a request, makes a user, and logs out.
use nonprofit_ledger.Prelude.{ℕ, ◌≡◌, refl, sym, true, false, Option, none, some}
use nonprofit_ledger.Exec.{query, statement, fallible, on_sql_error, is_due, tick, ◌>>=◌}
use nonprofit_ledger.Users.{
  User, by_username, scan_user, create_user, valid_role, insert_user, role_check,
}
use nonprofit_ledger.Auth.Middleware.{Web, Handler, require_auth}
use nonprofit_ledger.Auth.Middleware.Gates.{current}
use nonprofit_ledger.Auth.Password.{hash_password, verify_password}
use nonprofit_ledger.Api.Http.{
  Request, Json, UserResponse, user, Response, refuse, reply, status_ok,
}
use nonprofit_ledger.Api.Session.{login_handler, logout_handler}
use nonprofit_ledger.Api.Session.Login.{IsTrusted}
use nonprofit_ledger.Api.Session.Lifecycle.{IsSessionStore, Leaves, signed_in_until_logout}
use nonprofit_ledger.Api.Users.{to_user_response, create_user_handler}
use nonprofit_ledger.Api.Users.Hired.{created_can_log_in}
use nonprofit_ledger.Tests.{conn}
use nonprofit_ledger.Tests.Api.{sessions}
use nonprofit_ledger.Tests.Server.{sample_crypto, ones, reads_back, json, log_in}
use nonprofit_ledger.Tests.Requests.{with_one, credentials}

sessions-IsSessionStore : IsSessionStore sessions
sessions-IsSessionStore = record {
  get-put = λ id s. refl;
  get-destroy = λ s t h. let same : none ≡ t = cc in sym same;
}

abbrev before : Web sessions
before = record { session = none; state = with_one }

abbrev inside : Web sessions
inside = record { session = some 1; state = with_one }

let_in :
    login_handler json sample_crypto sessions log_in none before ≡ (reply 200 status_ok, inside)
unfolding login_handler verify_password by_username query statement scan_user ◌>>=◌
let_in = refl

abbrev who : Handler sessions Response
who cu w = (reply 200 status_ok, w)

signed_in_until_logout_example :
    ((user : User) × IsTrusted sample_crypto credentials with_one user
      × (require_auth sessions refuse who none inside ≡ who (some (current user)) inside))
    × Leaves json sample_crypto sessions sessions-IsSessionStore inside
        (logout_handler json sample_crypto sessions none inside)
        before
        (require_auth sessions refuse who none before)
unfolding logout_handler
signed_in_until_logout_example =
    signed_in_until_logout json sample_crypto sessions sessions-IsSessionStore log_in none none
      before inside inside before who refl let_in (refl, tt) refl refl refl refl

-- The admin makes a user, who then logs in.
abbrev knows_ann : Json
knows_ann = record json {
  create_user =
      λ b. some (record { username = "ann"; password = "secret"; role = "staff_bookkeeper" });
  login = λ b. some (record { username = "ann"; password = "secret" });
}

abbrev new_user : Request
new_user = record { method = "POST"; path = "/api/users"; body = "" }

abbrev ann : UserResponse
ann = record {
  id = 2;
  username = "ann";
  role = "staff_bookkeeper";
  active = true;
  must_change_password = false;
}

abbrev with_ann : Web sessions
with_ann =
    (create_user_handler sessions conn knows_ann sample_crypto (some (ones 32)) new_user none
      inside).1

created-ann :
    create_user_handler sessions conn knows_ann sample_crypto (some (ones 32)) new_user none inside
    ≡ (reply 201 (user ann), with_ann)
unfolding create_user_handler create_user hash_password valid_role insert_user role_check fallible
    on_sql_error to_user_response statement ◌>>=◌
created-ann = refl

abbrev of_ann : Option ℕ → Web sessions
of_ann session = record { session = session; state = with_ann.state }

with_ann-calm : is_due with_ann.state.faults ≡ false
unfolding create_user_handler create_user hash_password valid_role insert_user role_check fallible
    on_sql_error to_user_response statement ◌>>=◌
with_ann-calm = refl

created_can_log_in_example :
    login_handler knows_ann sample_crypto sessions log_in none (of_ann none)
    ≡ (reply 200 status_ok, record (of_ann (some 2)) { state = tick with_ann.state })
created_can_log_in_example =
    created_can_log_in sessions conn knows_ann sample_crypto (ones 32) new_user log_in none none
      inside with_ann (of_ann none) refl created-ann (reads_back "secret") refl refl with_ann-calm
      refl
