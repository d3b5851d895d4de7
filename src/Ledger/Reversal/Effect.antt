-- ===== src/Ledger/Reversal/Effect.antt =====
-- What `ReverseJournalEntry` has read and written when it returns an id.
use nonprofit_ledger.Prelude.{ℕ, String, ◌≡◌, subst, false, is_empty, some, map}
use nonprofit_ledger.Schema.{Db}
use nonprofit_ledger.Exec.{original_missing, original_has_no_lines, later, Conn, State, ok, tick}
use nonprofit_ledger.Exec.Inversion.{
  statement_then, fallible_then, query_then, raise_if_then, or_raise_then,
}
use nonprofit_ledger.Ledger.Entry.{insert_entry}
use nonprofit_ledger.Ledger.Entry.Inserts.{insert_entry-eq-done}
use nonprofit_ledger.Ledger.Entry.Written.{Draft, IsWritten, write_entry-eq-ok}
use nonprofit_ledger.Ledger.Reversal.{
  read_dates, read_lines, swapped, reversal_memo, reverse_journal_entry,
}

module _ (conn : Conn) (original_id : ℕ) (reason : String) (posted_by : ℕ) where
  -- The entry that a reversal writes, given the dates of the original.
  abbrev pub reversing : Db → String × String → Draft
  reversing db dates = record {
    entry_date = dates.0;
    memo = reversal_memo reason;
    posted_by = posted_by;
    posted_at = dates.1;
    source = "reversal";
    reverses = some original_id;
    lines = map swapped (read_lines original_id db);
    action = "reversal";
  }

  pub reverse_journal_entry-eq-ok :
      (s : State) {id : ℕ} {t : State}
      → reverse_journal_entry conn original_id reason posted_by s ≡ (ok id, t)
      → (dates : String × String) × (read_dates original_id s.db ≡ some dates)
        × (is_empty (read_lines original_id s.db) ≡ false)
        × IsWritten conn (reversing s.db dates) s.db id t.db
  unfolding reverse_journal_entry
  reverse_journal_entry-eq-ok s {id} {t} h =
      let h₁ = query_then (read_dates original_id) _ s h in
      let (dates, found, h₂) =
        or_raise_then (read_dates original_id s.db) original_missing _ (tick s) h₁ in
      let h₃ = query_then (read_lines original_id) _ (tick s) h₂ in
      let (filled, h₄) =
        raise_if_then (is_empty (read_lines original_id s.db)) original_has_no_lines _
          (tick (tick s)) h₃ in
      let d = reversing s.db dates in
      let (new_id, db, inserted, h₅) =
        statement_then
          (insert_entry conn d.entry_date d.memo d.posted_by d.posted_at d.source d.reverses) _
          (tick (tick s)) h₄ in
      let h₆ =
        fallible_then new_id _ (record { db = db; faults = later (later (later s.faults)) }) h₅ in
      let (fresh, made) =
        insert_entry-eq-done conn d.entry_date d.memo d.posted_by d.posted_at d.source d.reverses
          s.db inserted in
      let (same_id, written) =
        write_entry-eq-ok conn d s.db new_id
          (record { db = db; faults = later (later (later (later s.faults))) }) fresh made h₆ in
      (dates, found, filled, subst (λ i. IsWritten conn d s.db i t.db) same_id written)
