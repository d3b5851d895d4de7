-- ===== src/Api/Routes/Accepted.antt =====
-- Entries that come in through POST /api/ledger/entries and are taken.
use nonprofit_ledger.Prelude.{String}
use nonprofit_ledger.Api.Http.{Request}

-- A request to post the entry of its body.
abbrev pub posting_request : String → Request
posting_request body = record { method = "POST"; path = "/api/ledger/entries"; body = body }
