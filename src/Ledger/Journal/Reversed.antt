-- ===== src/Ledger/Journal/Reversed.antt =====
-- A reversal, as it shows in the journal.
use nonprofit_ledger.Prelude.{
  ℕ, String, ◌≡◌, refl, sym, ◌∙◌, ap, false, inl, inr, Bool-cases, Option-cases, eqb, eqb_iff, find,
  is_empty, Option, some, List, [], ◌∷◌, ◌++◌, map, arith,
}
use nonprofit_ledger.Schema.{Db, EntryRow, LineRow}
use nonprofit_ledger.Exec.{Conn, State, ok}
use nonprofit_ledger.Ledger.Entry.{NewLine}
use nonprofit_ledger.Ledger.Entry.Lines.{line_of}
use nonprofit_ledger.Ledger.Reversal.{
  scan_line, swapped, read_dates, reversal_memo, reverse_journal_entry,
}
use nonprofit_ledger.Ledger.Reversal.Effect.{reversing, reverse_journal_entry-eq-ok}
use nonprofit_ledger.Ledger.Entry.Written.{IsWritten}
use nonprofit_ledger.Ledger.Journal.{JournalEntry, owned_by, entry_of, journal, IsSound}
use nonprofit_ledger.Ledger.Journal.Written.{numbered, journal-IsWritten, IsWritten-IsSound}

-- A line with its two sides exchanged.
abbrev pub swap : NewLine → NewLine
swap l = record l { debit_amount = l.credit_amount; credit_amount = l.debit_amount }

-- The first entry of a journal with an id.
abbrev pub entry_with : ℕ → List JournalEntry → Option JournalEntry
entry_with id = find (λ (o : JournalEntry). eqb o.id id)

-- What corrects an entry: its dates, the sides of its lines exchanged, and a reference to it.
abbrev pub reversal_of : JournalEntry → ℕ → String → ℕ → JournalEntry
reversal_of o id reason posted_by = record {
  id = id;
  entry_date = o.entry_date;
  memo = reversal_memo reason;
  posted_by = posted_by;
  posted_at = o.posted_at;
  source = "reversal";
  reverses = some o.id;
  lines = map swap o.lines;
}

pub map-swapped :
    (rows : List LineRow) → map swapped (map scan_line rows) ≡ map swap (map line_of rows)
map-swapped [] = refl
map-swapped (r ∷ rows) = ap (λ (m : List NewLine). swap (line_of r) ∷ m) (map-swapped rows)

pub is_empty-map :
    (rows : List LineRow) → is_empty (map line_of rows) ≡ is_empty (map scan_line rows)
is_empty-map [] = refl
is_empty-map (r ∷ rows) = refl

-- The entry of a row that was found.
entry_with-found :
    (lines : List LineRow) (id : ℕ) (rows : List EntryRow) {r : EntryRow}
    → find (λ (q : EntryRow). eqb q.id id) rows ≡ some r
    → (entry_with id (map (entry_of lines) rows) ≡ some (entry_of lines r)) × (r.id ≡ id)
entry_with-found lines id [] h = cc
entry_with-found lines id (q ∷ rows) {r} h = elim (Bool-cases (eqb q.id id)) [
  | inl here ↦
      let same : q ≡ r = ground arith in
      (
        rw here (ap (λ (x : EntryRow). some (entry_of lines x)) same),
        ap (λ (x : EntryRow). x.id) (sym same) ∙ (eqb_iff q.id id).0 here,
      )
  | inr other ↦
      let (found, e) = entry_with-found lines id rows {r = r} (rw other at h) in (rw other found, e)
]

-- The row that the dates were read from.
read_dates-found :
    (original_id : ℕ) (db : Db) {dates : String × String}
    → read_dates original_id db ≡ some dates
    → (r : EntryRow) × (find (λ (q : EntryRow). eqb q.id original_id) db.entries ≡ some r)
      × (r.entry_date ≡ dates.0)
      × (r.posted_at ≡ dates.1)
read_dates-found original_id db h =
    elim (Option-cases (find (λ (q : EntryRow). eqb q.id original_id) db.entries)) [
      | inl missing ↦ absurd (ground arith)
      | inr (r, found) ↦ (r, found, ground arith, ground arith)
    ]

-- A reversal that returned, with the entry that it found and the one that it wrote.
pub record IsReversal (conn : Conn) (original_id : ℕ) (reason : String) (posted_by : ℕ)
    (before : Db) (id : ℕ) (after : Db) : Type 0 where
  pub original : JournalEntry
  pub found : entry_with original_id (journal before) ≡ some original
  pub filled : is_empty original.lines ≡ false
  pub dates : String × String
  pub written :
      IsWritten conn (reversing conn original_id reason posted_by before dates) before id after
  pub corrects :
      numbered (reversing conn original_id reason posted_by before dates) id
      ≡ reversal_of original id reason posted_by

pub reversal_lem :
    (conn : Conn) (original_id : ℕ) (reason : String) (posted_by : ℕ) (s : State) {id : ℕ}
    {t : State}
    → reverse_journal_entry conn original_id reason posted_by s ≡ (ok id, t)
    → IsReversal conn original_id reason posted_by s.db id t.db
unfolding journal
reversal_lem conn original_id reason posted_by s {id} h =
    let (dates, read, filled, written) =
      reverse_journal_entry-eq-ok conn original_id reason posted_by s h in
    let (r, row_found, date, at) = read_dates-found original_id s.db read in
    let (found, same_id) = entry_with-found s.db.lines original_id s.db.entries row_found in
    let rows = owned_by original_id s.db.lines in
    let owned = ap (λ (i : ℕ). owned_by i s.db.lines) same_id in
    let exchanged =
      map-swapped rows ∙ ap (λ (m : List LineRow). map swap (map line_of m)) (sym owned) in
    record {
      original = entry_of s.db.lines r;
      found = found;
      filled =
          ap (λ (m : List LineRow). is_empty (map line_of m)) owned ∙ is_empty-map rows ∙ filled;
      dates = dates;
      written = written;
      corrects = λ i. record {
        id = id;
        entry_date = sym date i;
        memo = reversal_memo reason;
        posted_by = posted_by;
        posted_at = sym at i;
        source = "reversal";
        reverses = some (sym same_id i);
        lines = exchanged i;
      };
    }

-- On tables whose lines all belong to entries, a reversal that returns an id has found the original in
-- the journal, with at least one line, and adds at the end of the journal exactly the entry that
-- corrects it: the same dates, the same accounts, funds and categories, with debits and credits
-- exchanged. The original and all other entries keep every field and line, and all lines still belong
-- to entries.
pub reversal-appends :
    (conn : Conn) (original_id : ℕ) (reason : String) (posted_by : ℕ) (s : State) {id : ℕ}
    {t : State}
    → IsSound s.db
    → reverse_journal_entry conn original_id reason posted_by s ≡ (ok id, t)
    → (o : JournalEntry) × (entry_with original_id (journal s.db) ≡ some o)
      × (is_empty o.lines ≡ false)
      × (journal t.db ≡ journal s.db ++ reversal_of o id reason posted_by ∷ [])
      × IsSound t.db
reversal-appends conn original_id reason posted_by s sound h =
    let r = reversal_lem conn original_id reason posted_by s h in
    let d = reversing conn original_id reason posted_by s.db r.dates in
    (
      r.original,
      r.found,
      r.filled,
      journal-IsWritten conn d sound r.written
          ∙ ap (λ (x : JournalEntry). journal s.db ++ x ∷ []) r.corrects,
      IsWritten-IsSound conn d sound r.written,
    )
