-- ===== src/Ledger/Journal/Written.antt =====
-- An entry that was written with its lines, as it shows in the journal.
use nonprofit_ledger.Prelude.{
  ℕ, ◌≡◌, sym, ◌∙◌, ap, ap₂, subst, All, false, contains, List, [], ◌∷◌, ◌++◌,
}
use nonprofit_ledger.Schema.{Db, EntryRow, LineRow, entry_ids}
use nonprofit_ledger.Exec.{Conn}
use nonprofit_ledger.Ledger.Entry.{NewLine}
use nonprofit_ledger.Ledger.Entry.Written.{Draft, draft_row, IsWritten}
use nonprofit_ledger.Ledger.Journal.{JournalEntry, journal, IsSound}
use nonprofit_ledger.Ledger.Journal.Extend.{row_id-fresh, journal-extended, extended-IsSound}

-- The entry under its id.
abbrev pub numbered : Draft → ℕ → JournalEntry
numbered d id = record {
  id = id;
  entry_date = d.entry_date;
  memo = d.memo;
  posted_by = d.posted_by;
  posted_at = d.posted_at;
  source = d.source;
  reverses = d.reverses;
  lines = d.lines;
}

module _ (conn : Conn) (d : Draft) {before after : Db} {id : ℕ} (sound : IsSound before)
    (p : IsWritten conn d before id after) where
  row : EntryRow
  row = draft_row conn d before

  owned : All (λ (r : LineRow). r.entry_id ≡ row.id) p.added
  unfolding row
  owned = subst (λ i. All (λ (r : LineRow). r.entry_id ≡ i) p.added) p.fresh p.owned

  new : contains row.id (entry_ids before) ≡ false
  unfolding row
  new = row_id-fresh conn (entry_ids before)

  pub journal-IsWritten : journal after ≡ journal before ++ numbered d id ∷ []
  unfolding journal row
  journal-IsWritten =
      ap journal p.result
      ∙ journal-extended before row p.added sound new owned
      ∙ ap₂
          (λ (i : ℕ) (ls : List NewLine).
            journal before ++ record (numbered d i) { lines = ls } ∷ [])
          (sym p.fresh) p.bodies

  pub IsWritten-IsSound : IsSound after
  unfolding row
  IsWritten-IsSound =
      subst IsSound (sym p.result) (extended-IsSound before row p.added sound new owned)

  pub IsWritten-fresh : contains id (entry_ids before) ≡ false
  IsWritten-fresh =
      subst (λ i. contains i (entry_ids before) ≡ false) (sym p.fresh)
        (row_id-fresh conn (entry_ids before))
