-- ===== src/Ledger/Reversal/Accepts.antt =====
-- A reversal that nothing stands in the way of is made.
use nonprofit_ledger.Prelude.{
  ℕ, String, ◌≡◌, refl, sym, ◌∙◌, ap, true, false, inl, inr, Bool-cases, contains, eqb, eqb_iff,
  find, is_empty, All, Option, none, some, List, [], ◌∷◌, ◌++◌, map,
}
use nonprofit_ledger.Schema.{Db, EntryRow, LineRow, entry_ids, user_ids}
use nonprofit_ledger.Exec.{Conn, ok, statement, query, fallible, transact, ◌>>=◌}
use nonprofit_ledger.Ledger.Entry.{line_checks, entry_row}
use nonprofit_ledger.Ledger.Entry.Lines.{line_of}
use nonprofit_ledger.Ledger.Posting.Accepts.{
  calm, IsPlaced, insert_entry-done, insert_lines-ok, write-ok, audited, new_row-listed,
}
use nonprofit_ledger.Ledger.Reversal.{
  swapped, read_dates, read_lines, read_reversal_lines, reversal_memo, reverse_journal_entry,
}
use nonprofit_ledger.Ledger.Journal.{JournalEntry, owned_by, entry_of, journal}
use nonprofit_ledger.Ledger.Journal.Reversed.{swap, entry_with, map-swapped, is_empty-map}

-- An entry that is seen in the journal, in the rows of the table.
entry_with-row :
    (lines : List LineRow) (id : ℕ) (rows : List EntryRow) {o : JournalEntry}
    → entry_with id (map (entry_of lines) rows) ≡ some o
    → (r : EntryRow) × (find (λ (q : EntryRow). eqb q.id id) rows ≡ some r)
      × (o ≡ entry_of lines r)
      × (r.id ≡ id)
entry_with-row lines id [] h = cc
entry_with-row lines id (q ∷ rows) {o} h = elim (Bool-cases (eqb q.id id)) [
  | inl here ↦
      let found : some (entry_of lines q) ≡ some o = rw here at h in
      (q, rw here refl, cc, (eqb_iff q.id id).0 here)
  | inr other ↦
      let (r, found, same, e) = entry_with-row lines id rows {o = o} (rw other at h) in
      (r, rw other found, same, e)
]

abbrev dates_of : Option EntryRow → Option (String × String)
dates_of o = elim o [ none ↦ none | some r ↦ some (r.entry_date, r.posted_at) ]

-- What ReverseJournalEntry reads of an entry of the journal.
record IsRead (original_id : ℕ) (o : JournalEntry) (db : Db) : Type 0 where
  dates : read_dates original_id db ≡ some (o.entry_date, o.posted_at)
  filled : is_empty (read_lines original_id db) ≡ is_empty o.lines
  exchanged : map swapped (read_lines original_id db) ≡ map swap o.lines

journal-IsRead :
    (original_id : ℕ) (db : Db) {o : JournalEntry}
    → entry_with original_id (journal db) ≡ some o
    → IsRead original_id o db
unfolding journal
journal-IsRead original_id db {o} h =
    let (r, found, same, same_id) = entry_with-row db.lines original_id db.entries h in
    let rows = owned_by original_id db.lines in
    let lines : map line_of rows ≡ o.lines =
      ap (λ i. map line_of (owned_by i db.lines)) (sym same_id)
      ∙ ap (λ (x : JournalEntry). x.lines) (sym same) in
    record {
      dates =
          ap dates_of found
          ∙ ap (λ (x : JournalEntry). some (x.entry_date, x.posted_at)) (sym same);
      filled = sym (is_empty-map rows) ∙ ap is_empty lines;
      exchanged = map-swapped rows ∙ ap (map swap) lines;
    }

module _ (conn : Conn) where
  -- What a reversal needs of the tables.
  pub record IsReversible (original_id posted_by : ℕ) (o : JournalEntry) (db : Db) : Type 0 where
    pub found : entry_with original_id (journal db) ≡ some o
    pub filled : is_empty o.lines ≡ false
    pub listed : contains original_id (entry_ids db) ≡ true
    pub checked : All (λ l. line_checks l ≡ true) (map swap o.lines)
    pub placed : All (IsPlaced db) (map swap o.lines)
    pub poster : contains posted_by (user_ids db) ≡ true

  reverse-calm :
      (original_id : ℕ) (reason : String) (posted_by : ℕ) (db : Db) {o : JournalEntry}
      → IsReversible original_id posted_by o db
      → (after : Db) × (reverse_journal_entry conn original_id reason posted_by (calm db)
          ≡ (ok (conn.row_id (entry_ids db)), calm after))
  unfolding reverse_journal_entry read_reversal_lines query statement fallible ◌>>=◌
  reverse-calm original_id reason posted_by db {o} a =
      let memo = reversal_memo reason in
      let id = conn.row_id (entry_ids db) in
      let read = journal-IsRead original_id db a.found in
      let row =
        entry_row conn o.entry_date memo posted_by o.posted_at "reversal" (some original_id) db in
      let with_row : Db = record db { entries = db.entries ++ row ∷ [] } in
      let (after, ran, users) =
        insert_lines-ok conn id (map swap o.lines) with_row a.checked (new_row-listed conn row db)
          a.placed in
      (
        audited conn posted_by "reversal" id memo after,
        rw
            (
              read.dates,
              read.filled,
              a.filled,
              insert_entry-done conn o.entry_date memo posted_by o.posted_at "reversal"
                  (some original_id) db a.listed,
              read.exchanged,
              ran,
              write-ok conn posted_by "reversal" id memo after refl
                  (ap (contains posted_by) users ∙ a.poster),
            )
            refl,
      )

  -- When the driver fails no call, the reversal of an entry of the journal that has lines, by a
  -- user who is there, is made, in the caller's transaction, provided that the accounts and funds
  -- of its lines are there and that its lines with their sides exchanged meet the CHECK
  -- constraints; foreign keys may be enforced or not. The id is the next one of the table.
  pub reverse_succeeds :
      (original_id : ℕ) (reason : String) (posted_by : ℕ) (db : Db) {o : JournalEntry}
      → IsReversible original_id posted_by o db
      → (after : Db) × (transact (reverse_journal_entry conn original_id reason posted_by) (calm db)
          ≡ (ok (conn.row_id (entry_ids db)), calm after))
  unfolding transact
  reverse_succeeds original_id reason posted_by db a =
      let (after, ran) = reverse-calm original_id reason posted_by db a in (after, rw ran refl)
