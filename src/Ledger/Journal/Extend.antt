-- ===== src/Ledger/Journal/Extend.antt =====
-- One more entry in the tables, with lines of its own, is one more entry in the journal.
use nonprofit_ledger.Prelude.{
  ℕ, inl, inr, Bool-cases, subst, ◌≡◌, refl, sym, ◌∙◌, ap, ap₂, true, false, ◌||◌, false≢true, eqb,
  eqb_iff, contains, contains-append, select-append, select-All, select_none, All, All-append,
  All-weaken, List, [], ◌∷◌, ◌++◌, map, map-append, append-nil, arith,
}
use nonprofit_ledger.Schema.{Db, EntryRow, LineRow, entry_ids}
use nonprofit_ledger.Exec.{Conn}
use nonprofit_ledger.Ledger.Entry.Lines.{line_of}
use nonprofit_ledger.Ledger.Journal.{JournalEntry, owned_by, entry_of, journal, IsSound}

-- A new id is none of those in use.
pub row_id-fresh : (conn : Conn) (ids : List ℕ) → contains (conn.row_id ids) ids ≡ false
row_id-fresh conn ids = elim (Bool-cases (contains (conn.row_id ids) ids)) [
  | inl old ↦ absurd (omega (arith, conn.row_id_above ids (conn.row_id ids) old))
  | inr new ↦ new
]

-- Two ids, one of them in the list and the other not, differ.
pub eqb_of_contains :
    (ids : List ℕ) (i j : ℕ) → contains i ids ≡ true → contains j ids ≡ false → eqb i j ≡ false
eqb_of_contains ids i j h k = elim (Bool-cases (eqb i j)) [
  | inl same ↦
      let e = (eqb_iff i j).0 same in
      absurd (false≢true (sym k ∙ subst (λ n. contains n ids ≡ true) e h))
  | inr other ↦ other
]

-- Every row's id is among the ids.
All-ids :
    (rows : List EntryRow)
    → All (λ (r : EntryRow). contains r.id (map (λ (q : EntryRow). q.id) rows) ≡ true) rows
All-ids [] = tt
All-ids (r ∷ rows) = (
  ground arith,
  All-weaken (λ (q : EntryRow). contains q.id (map (λ (p : EntryRow). p.id) rows) ≡ true) _
      (λ q h. ground arith) rows (All-ids rows),
)

module _ (db : Db) (row : EntryRow) (added : List LineRow) (sound : IsSound db)
    (fresh : contains row.id (entry_ids db) ≡ false)
    (owned : All (λ (r : LineRow). r.entry_id ≡ row.id) added) where
  abbrev extended : Db
  extended = record db { entries = db.entries ++ row ∷ []; lines = db.lines ++ added }

  foreign : All (λ (r : LineRow). eqb r.entry_id row.id ≡ false) db.lines
  foreign =
      All-weaken (λ (r : LineRow). contains r.entry_id (entry_ids db) ≡ true) _
        (λ r h. eqb_of_contains (entry_ids db) r.entry_id row.id h fresh) db.lines sound

  own : All (λ (r : LineRow). eqb r.entry_id row.id ≡ true) added
  own =
      All-weaken (λ (r : LineRow). r.entry_id ≡ row.id) _ (λ r h. (eqb_iff r.entry_id row.id).1 h)
        added owned

  -- The new entry has the added lines.
  owned_by-new : owned_by row.id extended.lines ≡ added
  owned_by-new =
      select-append (λ (r : LineRow). eqb r.entry_id row.id) db.lines added
      ∙ ap₂ ◌++◌ (select_none _ db.lines foreign) (select-All _ added own)

  -- An old entry has the lines that it had.
  owned_by-old :
      (id : ℕ)
      → contains id (entry_ids db) ≡ true
      → owned_by id extended.lines ≡ owned_by id db.lines
  owned_by-old id old =
      let other =
        All-weaken (λ (r : LineRow). r.entry_id ≡ row.id)
          (λ (r : LineRow). eqb r.entry_id id ≡ false)
          (λ r h. ground (arith, eqb_of_contains (entry_ids db) id row.id old fresh)) added owned in
      select-append (λ (r : LineRow). eqb r.entry_id id) db.lines added
      ∙ ap (λ (m : List LineRow). owned_by id db.lines ++ m) (select_none _ added other)
      ∙ append-nil (owned_by id db.lines)

  entries_of-old :
      (rows : List EntryRow)
      → All (λ (r : EntryRow). contains r.id (entry_ids db) ≡ true) rows
      → map (entry_of extended.lines) rows ≡ map (entry_of db.lines) rows
  entries_of-old [] h = refl
  entries_of-old (r ∷ rows) h =
      ap₂
        (λ (ls : List LineRow) (m : List JournalEntry).
          record (entry_of db.lines r) { lines = map line_of ls } ∷ m)
        (owned_by-old r.id h.0) (entries_of-old rows h.1)

  -- The journal has the new entry at its end, and is otherwise what it was.
  pub journal-extended :
      journal extended ≡ journal db ++ record (entry_of [] row) { lines = map line_of added } ∷ []
  unfolding journal
  journal-extended =
      map-append (entry_of extended.lines) db.entries (row ∷ [])
      ∙ ap₂ ◌++◌ (entries_of-old db.entries (All-ids db.entries)) (
          ap (λ (ls : List LineRow). record (entry_of [] row) { lines = map line_of ls } ∷ [])
            owned_by-new)

  contains-extended :
      (id : ℕ)
      → contains id (entry_ids extended) ≡ (contains id (entry_ids db) || (eqb id row.id || false))
  contains-extended id =
      ap (contains id) (map-append (λ (r : EntryRow). r.id) db.entries (row ∷ []))
      ∙ contains-append id (entry_ids db) (row.id ∷ [])

  pub extended-IsSound : IsSound extended
  extended-IsSound =
      All-append _ db.lines added
        (All-weaken (λ (r : LineRow). contains r.entry_id (entry_ids db) ≡ true) _
          (λ r h. ground (arith, contains-extended r.entry_id)) db.lines sound)
        (All-weaken (λ (r : LineRow). r.entry_id ≡ row.id) _
          (λ r h. ground (arith, contains-extended r.entry_id)) added owned)
