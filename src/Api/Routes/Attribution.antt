-- ===== src/Api/Routes/Attribution.antt =====
-- Who an entry is posted by, when it comes in through the route POST /api/ledger/entries.
