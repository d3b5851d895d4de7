-- ===== src/Ledger/Books/Writes.antt =====
-- A posting and a reversal keep the books in order.
use nonprofit_ledger.Prelude.{
  ℕ, String, ◌≡◌, sym, ◌∙◌, ap, subst, true, inl, inr, Bool-cases, All, All-append, All-weaken, eqb,
  some, List, [], ◌∷◌, map, map-append, arith,
}
use nonprofit_ledger.Prelude.Int.{pos, ◌+ℤ◌, int_laws}
use nonprofit_ledger.Schema.{Db}
use nonprofit_ledger.Exec.{Conn, State, ok}
use nonprofit_ledger.Ledger.Entry.{NewLine, NewEntry, line_checks}
use nonprofit_ledger.Ledger.Entry.Lines.{line_of}
use nonprofit_ledger.Ledger.Entry.Written.{Draft, IsWritten}
use nonprofit_ledger.Ledger.Posting.{post_journal_entry}
use nonprofit_ledger.Ledger.Posting.Effect.{posting, post_journal_entry-eq-ok}
use nonprofit_ledger.Ledger.Reversal.{reverse_journal_entry}
use nonprofit_ledger.Ledger.Reversal.Effect.{reversing}
use nonprofit_ledger.Ledger.Journal.{JournalEntry, journal}
use nonprofit_ledger.Ledger.Journal.Written.{numbered, journal-IsWritten, IsWritten-IsSound}
use nonprofit_ledger.Ledger.Journal.Reversed.{entry_with, reversal_lem}
use nonprofit_ledger.Ledger.Totals.{debits, credits, net, net-eq, net-append, net-swap}
use nonprofit_ledger.Ledger.Totals.Balanced.{IsNonneg, balances_iff, line_checks-IsNonneg}
use nonprofit_ledger.Ledger.Books.{IsBalanced, IsBooks, Fits}

-- The lines of all entries, after a write.
net-IsWritten :
    (conn : Conn) (d : Draft) {before after : Db} {id : ℕ}
    → IsWritten conn d before id after
    → net (map line_of after.lines) ≡ net (map line_of before.lines) +ℤ net d.lines
net-IsWritten conn d {before} p =
    ap (λ (db : Db). net (map line_of db.lines)) p.result
    ∙ ap net (map-append line_of before.lines p.added)
    ∙ net-append (map line_of before.lines) (map line_of p.added)
    ∙ ap (λ (ls : List NewLine). net (map line_of before.lines) +ℤ net ls) p.bodies

IsWritten-IsBooks :
    (conn : Conn) (d : Draft) {before after : Db} {id : ℕ}
    → IsBooks before
    → IsWritten conn d before id after
    → net d.lines ≡ pos 0
    → IsBooks after
IsWritten-IsBooks conn d {before} {id} b p even = record {
  sound = IsWritten-IsSound conn d b.sound p;
  balanced =
      subst (All IsBalanced) (sym (journal-IsWritten conn d b.sound p))
        (All-append IsBalanced (journal before) (numbered d id ∷ []) b.balanced (even, tt));
  total = net-IsWritten conn d p ∙ rw b.total (rw even (omega int_laws));
}

zero-net : (ls : List NewLine) → debits ls ≡ credits ls → net ls ≡ pos 0
zero-net ls e = net-eq ls ∙ rw e (omega int_laws)

-- A posting whose totals fit an int64 keeps the books in order.
pub post-IsBooks :
    (conn : Conn) (e : NewEntry) (s : State) {id : ℕ} {t : State}
    → IsBooks s.db
    → Fits e
    → post_journal_entry conn e s ≡ (ok id, t)
    → IsBooks t.db
post-IsBooks conn e s b fits h =
    let (written, accepted) = post_journal_entry-eq-ok conn e s h in
    let nonneg =
      All-weaken (λ l. line_checks l ≡ true) IsNonneg line_checks-IsNonneg e.lines
        accepted.checked in
    let even = (balances_iff e.lines nonneg fits.0 fits.1).0 accepted.balanced in
    IsWritten-IsBooks conn (posting conn e) b written (zero-net e.lines even.0)

-- An entry of the journal has what all its entries have.
All-entry_with :
    (id : ℕ) (entries : List JournalEntry) {o : JournalEntry}
    → All IsBalanced entries
    → entry_with id entries ≡ some o
    → net o.lines ≡ pos 0
All-entry_with id [] h e = cc
All-entry_with id (x ∷ xs) {o} h e = elim (Bool-cases (eqb x.id id)) [
  | inl here ↦ let same : x ≡ o = ground arith in subst IsBalanced same h.0
  | inr other ↦ All-entry_with id xs {o = o} h.1 (rw other at e)
]

-- A reversal keeps the books in order, whatever its totals.
pub reverse-IsBooks :
    (conn : Conn) (original_id : ℕ) (reason : String) (posted_by : ℕ) (s : State) {id : ℕ}
    {t : State}
    → IsBooks s.db
    → reverse_journal_entry conn original_id reason posted_by s ≡ (ok id, t)
    → IsBooks t.db
reverse-IsBooks conn original_id reason posted_by s b h =
    let r = reversal_lem conn original_id reason posted_by s h in
    let even = All-entry_with original_id (journal s.db) b.balanced r.found in
    IsWritten-IsBooks conn (reversing conn original_id reason posted_by s.db r.dates) b r.written (
      ap (λ (x : JournalEntry). net x.lines) r.corrects
      ∙ net-swap r.original.lines
      ∙ rw even (omega int_laws))
