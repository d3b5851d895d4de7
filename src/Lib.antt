-- ===== src/Lib.antt =====
-- Nonprofit Ledger: a fund-accounting server over SQLite. Paths are from the repository's root.
--
-- The parts of the program and the files that model them:
--   server/db/migrations   Schema: one record for each table; Db is all tables, as lists of rows.
--                          The CHECK, UNIQUE and REFERENCES clauses are in the inserts.
--   database/sql calls     Exec: a call takes the state (tables, and faults to come) and returns a
--                          result and a state. `statement`, `query` and `transact` may each be
--                          failed by the driver at any call, as the list of faults says.
--   server/audit           Audit: Write.
--   server/ledger          Ledger: Posting (PostJournalEntry) and Reversal (ReverseJournalEntry), which
--                          share the inserts of Entry; Period, Accounts (coa.go), Funds, Balances.
--                          Journal is the abstract view of the two journal tables, Totals the sums
--                          without bound, Books the invariants and the histories of the tables, over
--                          Frame, which takes each writing function apart into its statements.
--   server/users           Users.
--   server/auth            Auth: Session, Middleware, Password.
--   server/api             Api: Http has the types of requests and responses, Session the login,
--                          logout and health handlers, Users, Ledger and Backup the others, and
--                          Routes the table of RegisterRoutes and the choice of a route; its
--                          child Served has the requests that are answered, and the backups that are
--                          made meanwhile, one after the other.
--   the operating system   Disk: the calls of os and io that backup and restore make, on directories and
--                          files; each of them may be failed as well.
--   server/db/sqlite.go    Database: Open and RunMigrations.
--   server/backup          Backup: Snapshot, Rotate and RunScheduled, and Restore for restore.go; Stamps
--                          has the times in the names of the files.
--   cmd/server             Server: the settings, the first admin, and the scheduler of backups; Main puts
--                          them together as `main` does, Run and Process follow a process from its
--                          start.
-- A handler of Api calls the functions of Ledger and Users, after the two middlewares of Auth have
-- looked up the user of the session; Posting, Reversal and Period write to the audit log in the
-- transaction that they run in.
--
-- Conventions. Amounts are integers, and where Go adds int64 values the sum wraps around. Row ids are
-- natural numbers, as SQLite hands out positive ones; requests with a negative id are not modelled
-- (as a user or an account it finds no row; as a fund of a line it is refused where foreign keys are
-- enforced, and is written where they are not). A `Conn` gives the id of a new row (with the law that
-- it is larger than all ids of the table), the clock, the text of errors, and whether foreign keys
-- are enforced, since the pragma is set for one connection of the pool. A wrapped error keeps what it
-- wraps and drops the added text. A call of `LastInsertId` or `RowsAffected` is a call that may fail.
-- All loops are structural recursion; nothing runs on fuel.
--
-- Parameters: the session manager (scs), argon2, base64 and fmt's scanning (Crypto), the JSON decoder
-- (Json), the SQLite driver and the migrator (Sqlite, which has the file image of a database, what is
-- read of a file and the log beside it, and what PRAGMA journal_mode = WAL writes), random bytes,
-- clock times, and the parsers of strconv and time. Request paths are taken as clean: ServeMux
-- redirects others before it looks for a route.
--
-- Files. A path is a clean directory and a name. MkdirAll notes the directory that is asked for, and
-- not its parents, and does not look for a file in its way. What the open database writes to its own
-- file and log after it was opened is not followed on the disk: its tables are. A call of the system
-- that fails leaves the disk as it was; a real copy, or VACUUM, that fails may leave a part of the
-- new file, and no result speaks of what it leaves.
--
-- Panics. A negative number of snapshots to keep is an outcome of `main` of which nothing is said.
-- Where time.NewTicker panics, the goroutine ends the process: `main` is then `ending` and not
-- `serving`, as the server may have answered requests before that. argon2.IDKey, which panics for a
-- hash that has t=0 or p=0, is taken as total.
--
-- Not modelled: the HTTP server, and when the ticks of the scheduler come (it is a list of the runs
-- that they start, and in Served they come between any two requests), the session store, and the
-- triggers that refuse updates and deletions, which no statement of the program reaches.
pub mod Prelude
pub mod Schema
pub mod Exec
pub mod Audit
pub mod Ledger
pub mod Users
pub mod Auth
pub mod Disk
pub mod Database
pub mod Backup
pub mod Api
pub mod Server
pub mod Tests
