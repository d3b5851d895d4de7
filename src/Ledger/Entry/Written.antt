-- ===== src/Ledger/Entry/Written.antt =====
-- The part that a posting and a reversal share: one entry, its lines and its audit row are written.
use nonprofit_ledger.Prelude.{
  ℕ, ◌≡◌, sym, ◌∙◌, ap, true, String, All, Option, List, [], ◌∷◌, ◌++◌, map,
}
use nonprofit_ledger.Schema.{Db, EntryRow, LineRow, entry_ids}
use nonprofit_ledger.Exec.{Conn, State, Result, ok, pure, ◌>>=◌}
use nonprofit_ledger.Exec.Inversion.{>>=-eq-ok}
use nonprofit_ledger.Audit
use nonprofit_ledger.Audit.{audit_row}
use nonprofit_ledger.Ledger.Entry.{NewLine, line_checks, entry_row, insert_lines}
use nonprofit_ledger.Ledger.Entry.Lines.{line_of, insert_lines-eq-ok}

-- The values of an entry that is being written, and the verb of its audit row.
pub record Draft : Type 0 where
  pub entry_date : String
  pub memo : String
  pub posted_by : ℕ
  pub posted_at : String
  pub source : String
  pub reverses : Option ℕ
  pub lines : List NewLine
  pub action : String

module _ (conn : Conn) (d : Draft) where
  abbrev pub draft_row : Db → EntryRow
  draft_row db = entry_row conn d.entry_date d.memo d.posted_by d.posted_at d.source d.reverses db

  abbrev pub with_row : Db → Db
  with_row db = record db { entries = db.entries ++ draft_row db ∷ [] }

  abbrev pub with_audit : ℕ → Db → Db
  with_audit id db = record db {
    audit_log =
        db.audit_log ++ audit_row conn d.posted_by d.action "journal_entry" id d.memo db ∷ [];
  }

  -- The tables after the entry is written, against those before.
  pub record IsWritten (before : Db) (id : ℕ) (after : Db) : Type 0 where
    pub fresh : id ≡ conn.row_id (entry_ids before)
    pub added : List LineRow
    pub result : after ≡ record before {
      entries = before.entries ++ draft_row before ∷ [];
      lines = before.lines ++ added;
      audit_log =
          before.audit_log
          ++ audit_row conn d.posted_by d.action "journal_entry" id d.memo before ∷ [];
    }
    pub bodies : map line_of added ≡ d.lines
    pub owned : All (λ (r : LineRow). r.entry_id ≡ id) added
    pub checked : All (λ l. line_checks l ≡ true) d.lines

  -- The inserts and the audit row, from the id of the new entry on.
  pub write_entry-eq-ok :
      (before : Db) (id : ℕ) (u : State) {id' : ℕ} {t : State}
      → id ≡ conn.row_id (entry_ids before)
      → u.db ≡ with_row before
      → (insert_lines conn id d.lines >>= λ _.
            Audit.write conn d.posted_by d.action "journal_entry" id d.memo >>= λ _. pure id)
          u
        ≡ (ok id', t)
      → (id ≡ id') × IsWritten before id t.db
  write_entry-eq-ok before id u {t} fresh made h =
      let (_, v, wrote, h₁) = >>=-eq-ok (insert_lines conn id d.lines) _ u h in
      let a = insert_lines-eq-ok conn id d.lines u wrote in
      let (_, w, logged, h₂) =
        >>=-eq-ok (Audit.write conn d.posted_by d.action "journal_entry" id d.memo) _ v h₁ in
      let row = Audit.write-eq-ok conn d.posted_by d.action "journal_entry" id d.memo v logged in
      (
        cc,
        record {
          fresh = fresh;
          added = a.added;
          result =
              ap (λ (r : Result ℕ × State). r.1.db) (sym h₂)
              ∙ row
              ∙ ap (with_audit id)
                  (a.result ∙ ap (λ (db : Db). record db { lines = db.lines ++ a.added }) made);
          bodies = a.bodies;
          owned = a.owned;
          checked = a.checked;
        },
      )
