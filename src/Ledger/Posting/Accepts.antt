-- ===== src/Ledger/Posting/Accepts.antt =====
-- A posting that nothing stands in the way of is made.
use nonprofit_ledger.Prelude.{
  ℕ, String, ◌≡◌, refl, ◌∙◌, ap, true, false, contains, contains-append, map-append, is_empty, All,
  none, List, map, [], ◌∷◌, ◌++◌, ◌==◌, Option, arith,
}
use nonprofit_ledger.Schema.{Db, EntryRow, account_ids, fund_ids, entry_ids, user_ids}
use nonprofit_ledger.Exec.{Conn, State, ok, done, statement, query, fallible, transact, ◌>>=◌}
use nonprofit_ledger.Audit
use nonprofit_ledger.Audit.{audit_row}
use nonprofit_ledger.Ledger.Entry.{
  NewLine, NewEntry, line_checks, line_references, entry_row, entry_references, line_row,
  insert_entry, insert_line, insert_lines,
}
use nonprofit_ledger.Ledger.Posting.{
  balances, default_source, locked_date, is_locked, check_lines, lookup_account_type,
  get_locked_through_date_tx, post_tx, post_journal_entry,
}
use nonprofit_ledger.Ledger.Posting.Steps.{IsClassified}

-- A state in which the driver fails no call to come.
abbrev pub calm : Db → State
calm db = record { db = db; faults = [] }

-- The account and the fund of a line are there.
abbrev pub IsPlaced : Db → NewLine → Type 0
IsPlaced db l =
    (contains l.account_id (account_ids db) ≡ true) × (contains l.fund_id (fund_ids db) ≡ true)

check_lines-ok :
    (ls : List NewLine) (db : Db)
    → All (IsClassified db) ls
    → check_lines ls (calm db) ≡ (ok tt, calm db)
unfolding check_lines lookup_account_type query statement ◌>>=◌
check_lines-ok [] db h = refl
check_lines-ok (l ∷ ls) db h =
    let (type, found, has) = h.0 in rw (found, has) (check_lines-ok ls db h.1)

module _ (conn : Conn) where
  insert_line-done :
      (id : ℕ) (l : NewLine) (db : Db)
      → line_checks l ≡ true
      → contains id (entry_ids db) ≡ true
      → IsPlaced db l
      → insert_line conn id l db
        ≡ done tt (record db { lines = db.lines ++ line_row conn id l db ∷ [] })
  unfolding insert_line line_references
  insert_line-done id l db checked entry placed = ground arith

  pub insert_lines-ok :
      (id : ℕ) (ls : List NewLine) (db : Db)
      → All (λ l. line_checks l ≡ true) ls
      → contains id (entry_ids db) ≡ true
      → All (IsPlaced db) ls
      → (after : Db) × (insert_lines conn id ls (calm db) ≡ (ok tt, calm after))
        × (user_ids after ≡ user_ids db)
  unfolding insert_lines statement ◌>>=◌
  insert_lines-ok id [] db checked entry placed = (db, refl, refl)
  insert_lines-ok id (l ∷ ls) db checked entry placed =
      let (after, ran, users) =
        insert_lines-ok id ls (record db { lines = db.lines ++ line_row conn id l db ∷ [] })
          checked.1 entry placed.1 in
      (after, rw (insert_line-done id l db checked.0 entry placed.0) ran, users)

  pub insert_entry-done :
      (date memo : String) (user : ℕ) (at source : String) (reverses : Option ℕ) (db : Db)
      → entry_references conn reverses db ≡ true
      → let row = entry_row conn date memo user at source reverses db in
        insert_entry conn date memo user at source reverses db
        ≡ done row.id (record db { entries = db.entries ++ row ∷ [] })
  unfolding insert_entry
  insert_entry-done date memo user at source reverses db there = ground arith

  abbrev pub audited : ℕ → String → ℕ → String → Db → Db
  audited user action id memo db = record db {
    audit_log = db.audit_log ++ audit_row conn user action "journal_entry" id memo db ∷ [];
  }

  insert_audit-done :
      (user : ℕ) (action : String) (id : ℕ) (memo : String) (db : Db)
      → contains user (user_ids db) ≡ true
      → Audit.insert_audit conn user action "journal_entry" id memo db
        ≡ done tt (audited user action id memo db)
  unfolding Audit.insert_audit
  insert_audit-done user action id memo db h = ground arith

  pub write-ok :
      (user : ℕ) (action : String) (id : ℕ) (memo : String) (db : Db)
      → (action == "") ≡ false
      → contains user (user_ids db) ≡ true
      → Audit.write conn user action "journal_entry" id memo (calm db)
        ≡ (ok tt, calm (audited user action id memo db))
  unfolding Audit.write statement ◌>>=◌
  write-ok user action id memo db named h =
      rw (named, insert_audit-done user action id memo db h) refl

  -- What the entry needs of the tables.
  pub record IsAcceptable (e : NewEntry) (db : Db) : Type 0 where
    pub nonempty : is_empty e.lines ≡ false
    pub balanced : balances e.lines ≡ true
    pub unlocked : is_locked e.entry_date (locked_date db.period) ≡ false
    pub classified : All (IsClassified db) e.lines
    pub checked : All (λ l. line_checks l ≡ true) e.lines
    pub placed : All (IsPlaced db) e.lines
    pub poster : contains e.posted_by (user_ids db) ≡ true

  abbrev new_row : NewEntry → Db → EntryRow
  new_row e db =
      entry_row conn e.entry_date e.memo e.posted_by conn.datetime_now (default_source e.source)
        none db

  abbrev with_entry : NewEntry → Db → Db
  with_entry e db = record db { entries = db.entries ++ new_row e db ∷ [] }

  -- The last row of the table is there.
  pub new_row-listed :
      (row : EntryRow) (db : Db)
      → contains row.id (map (λ (r : EntryRow). r.id) (db.entries ++ row ∷ [])) ≡ true
  new_row-listed row db =
      ap (contains row.id) (map-append (λ (r : EntryRow). r.id) db.entries (row ∷ []))
      ∙ contains-append row.id (entry_ids db) (row.id ∷ [])
      ∙ ground arith

  post_tx-ok :
      (e : NewEntry) (db : Db)
      → IsAcceptable e db
      → (after : Db) × (post_tx conn e (calm db) ≡ (ok (conn.row_id (entry_ids db)), calm after))
  unfolding post_tx get_locked_through_date_tx query statement fallible ◌>>=◌
  post_tx-ok e db a =
      let id = conn.row_id (entry_ids db) in
      let (after, ran, users) =
        insert_lines-ok id e.lines (with_entry e db) a.checked (new_row-listed (new_row e db) db)
          a.placed in
      let written =
        write-ok e.posted_by "create" id e.memo after refl
          (ap (contains e.posted_by) users ∙ a.poster) in
      (
        audited e.posted_by "create" id e.memo after,
        rw
            (
              a.unlocked,
              check_lines-ok e.lines db a.classified,
              insert_entry-done e.entry_date e.memo e.posted_by conn.datetime_now
                  (default_source e.source) none db refl,
              ran,
              written,
            )
            refl,
      )

  -- When the driver fails no call, an entry is posted that has lines, is balanced, is dated after the
  -- locked-through date, names accounts and funds that are there, has a category on every line of an
  -- expense account, meets the CHECK constraints, and is posted by a user who is there; foreign keys
  -- may be enforced or not. The id is the next one of the table.
  pub post_succeeds :
      (e : NewEntry) (db : Db)
      → IsAcceptable e db
      → (after : Db) × (post_journal_entry conn e (calm db)
          ≡ (ok (conn.row_id (entry_ids db)), calm after))
  unfolding post_journal_entry transact ◌>>=◌
  post_succeeds e db a =
      let (after, ran) = post_tx-ok e db a in (after, rw (a.nonempty, a.balanced, ran) refl)
