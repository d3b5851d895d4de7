-- ===== src/Ledger/Entry/Inserts.antt =====
-- What an accepted INSERT into the journal has checked and written.
use nonprofit_ledger.Prelude.{ℕ, String, ◌≡◌, false, ◌&&◌, not, Option, [], ◌∷◌, ◌++◌, true, arith}
use nonprofit_ledger.Schema.{Db, entry_ids}
use nonprofit_ledger.Exec.{Conn, done}
use nonprofit_ledger.Ledger.Entry.{
  NewLine, line_checks, line_references, line_row, entry_row, insert_entry, insert_line,
}

module _ (conn : Conn) where
  pub insert_entry-eq-done :
      (entry_date memo : String) (posted_by : ℕ) (posted_at source : String) (reverses : Option ℕ)
      (db : Db) {id : ℕ} {db' : Db}
      → insert_entry conn entry_date memo posted_by posted_at source reverses db ≡ done id db'
      → (id ≡ conn.row_id (entry_ids db))
        × (db' ≡ record db {
          entries =
              db.entries
              ++ entry_row conn entry_date memo posted_by posted_at source reverses db ∷ [];
        })
  unfolding insert_entry
  insert_entry-eq-done entry_date memo posted_by posted_at source reverses db h = ground arith

  pub insert_line-eq-done :
      (entry_id : ℕ) (l : NewLine) (db : Db) {db' : Db}
      → insert_line conn entry_id l db ≡ done tt db'
      → (line_checks l ≡ true)
        × ((conn.foreign_keys && not (line_references entry_id l db)) ≡ false)
        × (db' ≡ record db { lines = db.lines ++ line_row conn entry_id l db ∷ [] })
  unfolding insert_line
  insert_line-eq-done entry_id l db h = ground arith
