-- ===== src/Ledger.antt =====
-- server/ledger, a module to each file of the package.
pub mod Entry
pub mod Frame
pub mod Posting
pub mod Reversal
pub mod Period
pub mod Accounts
pub mod Funds
pub mod Balances
pub mod Journal
pub mod Totals
pub mod Books
