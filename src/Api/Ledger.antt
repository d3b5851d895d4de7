-- ===== src/Api/Ledger.antt =====
-- The handlers of server/api/routes.go.
use nonprofit_ledger.Prelude.{ℕ, ⊤, if◌then◌else◌, Option, none, some, List, ◌==◌}
use nonprofit_ledger.Exec.{Conn, Result, ok, err}
use nonprofit_ledger.Ledger.Entry.{NewEntry}
use nonprofit_ledger.Ledger.Posting.{post_journal_entry}
use nonprofit_ledger.Ledger.Period.{lock_period}
use nonprofit_ledger.Ledger.Balances.{FundBalanceRow, trial_balance}
use nonprofit_ledger.Auth.Session.{SessionManager}
use nonprofit_ledger.Auth.Middleware.{CurrentUser, Web, Handler}
use nonprofit_ledger.Api.Http.{
  Request, LockPeriodRequest, PostJournalEntryRequest, Json, Response, reply, reply_error,
  status_ok, failure, created, balances,
}

module _ (sm : SessionManager) where
  abbrev pub trial_balance_reply : Result (List FundBalanceRow) → Response
  trial_balance_reply (err e) = reply_error 500 "internal error"
  trial_balance_reply (ok rows) = reply 200 (balances rows)

  unfoldable pub trial_balance_handler : Handler sm Response
  unfolding trial_balance
  trial_balance_handler cu w =
      let (r, state) = trial_balance w.state in (trial_balance_reply r, record w { state = state })

  abbrev pub lock_reply : Result ⊤ → Response
  lock_reply (err e) = reply_error 500 "internal error"
  lock_reply (ok u) = reply 200 status_ok

  abbrev pub post_reply : Result ℕ → Response
  post_reply (err e) = reply 400 (failure e)
  post_reply (ok id) = reply 201 (created id)

  module _ (conn : Conn) (json : Json) where
    abbrev pub lock_as : LockPeriodRequest → Option CurrentUser → Web sm → Response × Web sm
    lock_as req none w = (reply_error 401 "unauthorized", w)
    lock_as req (some cu) w =
        let (r, state) = lock_period conn req.through_date cu.id w.state in
        (lock_reply r, record w { state = state })

    abbrev pub lock_decoded :
        Option LockPeriodRequest → Option CurrentUser → Web sm → Response × Web sm
    lock_decoded none cu w = (reply_error 400 "invalid request body", w)
    lock_decoded (some req) cu w =
        if req.through_date == ""
        then (reply_error 400 "invalid request body", w)
        else lock_as req cu w

    unfoldable pub lock_period_handler : Request → Handler sm Response
    unfolding lock_period
    lock_period_handler r cu w = lock_decoded (json.lock_period r.body) cu w

    abbrev pub entry_by : PostJournalEntryRequest → CurrentUser → NewEntry
    entry_by req cu = record {
      entry_date = req.entry_date;
      memo = req.memo;
      posted_by = cu.id;
      source = req.source;
      lines = req.lines;
    }

    abbrev pub post_as : PostJournalEntryRequest → Option CurrentUser → Web sm → Response × Web sm
    post_as req none w = (reply_error 401 "unauthorized", w)
    post_as req (some cu) w =
        let (r, state) = post_journal_entry conn (entry_by req cu) w.state in
        (post_reply r, record w { state = state })

    abbrev pub post_decoded :
        Option PostJournalEntryRequest → Option CurrentUser → Web sm → Response × Web sm
    post_decoded none cu w = (reply_error 400 "invalid request body", w)
    post_decoded (some req) cu w = post_as req cu w

    unfoldable pub post_journal_entry_handler : Request → Handler sm Response
    unfolding post_journal_entry
    post_journal_entry_handler r cu w = post_decoded (json.post_journal_entry r.body) cu w
