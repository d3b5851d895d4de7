-- ===== src/Ledger/Posting/Effect.antt =====
-- What `PostJournalEntry` has checked and written when it returns an id.
use nonprofit_ledger.Prelude.{
  ℕ, ◌≡◌, sym, ◌∙◌, ap, subst, true, false, not, is_empty, All, none, arith,
}
use nonprofit_ledger.Schema.{Db, entry_ids}
use nonprofit_ledger.Exec.{no_lines, not_balanced, period_locked, later, Conn, State, ok, tick}
use nonprofit_ledger.Exec.Inversion.{
  >>=-eq-ok, statement_then, fallible_then, query_then, raise_if_then, transact-eq-ok,
}
use nonprofit_ledger.Ledger.Entry.{NewEntry, line_checks, insert_entry}
use nonprofit_ledger.Ledger.Entry.Inserts.{insert_entry-eq-done}
use nonprofit_ledger.Ledger.Entry.Written.{Draft, with_row, IsWritten, write_entry-eq-ok}
use nonprofit_ledger.Ledger.Posting.{
  balances, default_source, locked_date, is_locked, check_lines, post_tx, post_journal_entry,
}
use nonprofit_ledger.Ledger.Posting.Steps.{IsClassified, check_lines-eq-ok}

-- The entry that a posting writes.
abbrev pub posting : Conn → NewEntry → Draft
posting conn e = record {
  entry_date = e.entry_date;
  memo = e.memo;
  posted_by = e.posted_by;
  posted_at = conn.datetime_now;
  source = default_source e.source;
  reverses = none;
  lines = e.lines;
  action = "create";
}

module _ (conn : Conn) (e : NewEntry) where
  -- What held of the entry when it was accepted.
  pub record IsAccepted (before : Db) : Type 0 where
    pub nonempty : is_empty e.lines ≡ false
    pub balanced : balances e.lines ≡ true
    pub unlocked : is_locked e.entry_date (locked_date before.period) ≡ false
    pub classified : All (IsClassified before) e.lines
    pub checked : All (λ l. line_checks l ≡ true) e.lines

  post_tx-eq-ok :
      (s : State) {id : ℕ} {t : State}
      → post_tx conn e s ≡ (ok id, t)
      → IsWritten conn (posting conn e) s.db id t.db
        × (is_locked e.entry_date (locked_date s.db.period) ≡ false)
        × All (IsClassified s.db) e.lines
  unfolding post_tx
  post_tx-eq-ok s {id} {t} h =
      let d = posting conn e in
      let h₁ = query_then (λ db. locked_date db.period) _ s h in
      let (unlocked, h₂) =
        raise_if_then (is_locked e.entry_date (locked_date s.db.period)) period_locked _ (tick s)
          h₁ in
      let (_, u, looked, h₃) = >>=-eq-ok (check_lines e.lines) _ (tick s) h₂ in
      let (classified, same) = check_lines-eq-ok e.lines (tick s) looked in
      let (entry_id, db, inserted, h₄) =
        statement_then
          (insert_entry conn e.entry_date e.memo e.posted_by conn.datetime_now
            (default_source e.source) none)
          _ u h₃ in
      let h₅ = fallible_then entry_id _ (record { db = db; faults = later u.faults }) h₄ in
      let (fresh, made) =
        insert_entry-eq-done conn e.entry_date e.memo e.posted_by conn.datetime_now
          (default_source e.source) none u.db inserted in
      let (same_id, written) =
        write_entry-eq-ok conn d s.db entry_id (record { db = db; faults = later (later u.faults) })
          (fresh ∙ ap (λ (b : Db). conn.row_id (entry_ids b)) same)
          (made ∙ ap (with_row conn d) same) h₅ in
      (subst (λ i. IsWritten conn d s.db i t.db) same_id written, unlocked, classified)

  -- An entry for which `PostJournalEntry` returns an id had lines, passed the balance check, was
  -- dated after the locked-through date, named existing accounts only, had a category on every line
  -- of an expense account, and had every line meet the CHECK constraints; the call wrote its row, its
  -- lines and one audit row.
  pub post_journal_entry-eq-ok :
      (s : State) {id : ℕ} {t : State}
      → post_journal_entry conn e s ≡ (ok id, t)
      → IsWritten conn (posting conn e) s.db id t.db × IsAccepted s.db
  unfolding post_journal_entry
  post_journal_entry-eq-ok s {id} {t} h =
      let (nonempty, h₁) = raise_if_then (is_empty e.lines) no_lines _ s h in
      let (balanced, h₂) = raise_if_then (not (balances e.lines)) not_balanced _ s h₁ in
      let (u, ran, kept) = transact-eq-ok (post_tx conn e) s h₂ in
      let (written, unlocked, classified) = post_tx-eq-ok (tick s) ran in
      (
        subst (IsWritten conn (posting conn e) s.db id) (sym kept) written,
        record {
          nonempty = nonempty;
          balanced = ground arith;
          unlocked = unlocked;
          classified = classified;
          checked = written.checked;
        },
      )
