-- ===== src/Tests/Requests.antt =====
-- Logins of the first admin.
use nonprofit_ledger.Prelude.{◌≡◌, refl, none, []}
use nonprofit_ledger.Schema.{empty}
use nonprofit_ledger.Exec.{State, ok, statement, fallible, ◌>>=◌}
use nonprofit_ledger.Users.{update_users, deactivate}
use nonprofit_ledger.Api.Http.{LoginRequest}
use nonprofit_ledger.Api.Session.{login_handler}
use nonprofit_ledger.Api.Session.Login.{IsDecided, IsDenied, login_handler_lem}
use nonprofit_ledger.Api.Session.Dismissed.{dismissed-IsDenied}
use nonprofit_ledger.Api.Routes.{Server}
use nonprofit_ledger.Api.Routes.Served.{}
use nonprofit_ledger.Server.{spell}
use nonprofit_ledger.Server.Bootstrap.{with_admin, drawn}
use nonprofit_ledger.Tests.{conn}
use nonprofit_ledger.Tests.Api.{sessions, server, reads_donation}
use nonprofit_ledger.Tests.Server.{sample_crypto, ones, random, json, log_in}

abbrev pub reader : Server
reader = record server { json = reads_donation }

abbrev pub with_one : State
with_one = record { db = with_admin conn sample_crypto random (ones 32) empty; faults = [] }

abbrev pub credentials : LoginRequest
credentials = record { username = "admin"; password = spell (drawn random) }

login_handler_lem_example :
    IsDecided sample_crypto sessions credentials
      (record { session = none; state = with_one })
      (login_handler json sample_crypto sessions log_in none
        (record { session = none; state = with_one }))
login_handler_lem_example =
    login_handler_lem json sample_crypto sessions log_in none
      (record { session = none; state = with_one }) refl

abbrev without_one : State
without_one = (deactivate 1 with_one).1

deactivate-only : deactivate 1 with_one ≡ (ok tt, without_one)
unfolding deactivate update_users fallible statement ◌>>=◌
deactivate-only = refl

dismissed-IsDenied_example :
    IsDenied sample_crypto sessions credentials
      (record { session = none; state = without_one })
      (login_handler json sample_crypto sessions log_in none
        (record { session = none; state = without_one }))
dismissed-IsDenied_example =
    dismissed-IsDenied json sample_crypto sessions 1 with_one without_one log_in none
      (record { session = none; state = without_one }) (refl, tt) refl deactivate-only refl refl
      refl
