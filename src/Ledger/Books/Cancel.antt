-- ===== src/Ledger/Books/Cancel.antt =====
-- A reversal against the balances of the funds.
use nonprofit_ledger.Prelude.{
  ℕ, String, ◌≡◌, refl, ◌∙◌, ap, eqb, select-append, some, List, [], ◌∷◌, map, map-append, arith,
}
use nonprofit_ledger.Prelude.Int.{ℤ, ◌+ℤ◌, ◌-ℤ◌, int_laws}
use nonprofit_ledger.Schema.{Db, LineRow}
use nonprofit_ledger.Exec.{Conn, State, ok}
use nonprofit_ledger.Ledger.Entry.{NewLine}
use nonprofit_ledger.Ledger.Entry.Lines.{line_of}
use nonprofit_ledger.Ledger.Entry.Written.{Draft, IsWritten}
use nonprofit_ledger.Ledger.Posting.{post_journal_entry}
use nonprofit_ledger.Ledger.Posting.Effect.{posting, post_journal_entry-eq-ok}
use nonprofit_ledger.Ledger.Entry.{NewEntry}
use nonprofit_ledger.Ledger.Reversal.{reverse_journal_entry}
use nonprofit_ledger.Ledger.Reversal.Effect.{reversing}
use nonprofit_ledger.Ledger.Journal.{JournalEntry, journal}
use nonprofit_ledger.Ledger.Journal.Reversed.{entry_with, reversal_lem}
use nonprofit_ledger.Ledger.Totals.{net, net-append, net-swap, on_fund, on_fund-swap}
use nonprofit_ledger.Ledger.Balances.{of_fund}

-- The balance of a fund, as the lines of the journal have it.
abbrev pub balance_of : ℕ → Db → ℤ
balance_of f db = net (map line_of (of_fund f db.lines))

line_of-of_fund :
    (f : ℕ) (rows : List LineRow) → map line_of (of_fund f rows) ≡ on_fund f (map line_of rows)
line_of-of_fund f [] = refl
line_of-of_fund f (r ∷ rows) = ground (arith, line_of-of_fund f rows)

balance_of-IsWritten :
    (conn : Conn) (d : Draft) (f : ℕ) {before after : Db} {id : ℕ}
    → IsWritten conn d before id after
    → balance_of f after ≡ balance_of f before +ℤ net (on_fund f d.lines)
balance_of-IsWritten conn d f {before} p =
    ap (balance_of f) p.result
    ∙ ap (λ (m : List LineRow). net (map line_of m))
        (select-append (λ (r : LineRow). eqb r.fund_id f) before.lines p.added)
    ∙ ap net (map-append line_of (of_fund f before.lines) (of_fund f p.added))
    ∙ net-append (map line_of (of_fund f before.lines)) (map line_of (of_fund f p.added))
    ∙ ap (λ (m : List NewLine). balance_of f before +ℤ net m)
        (line_of-of_fund f p.added ∙ ap (on_fund f) p.bodies)

-- A posting changes the balance of each fund by the debits less the credits of its lines on that
-- fund.
pub post-balance :
    (conn : Conn) (e : NewEntry) (s : State) {id : ℕ} {t : State}
    → post_journal_entry conn e s ≡ (ok id, t)
    → (f : ℕ) → balance_of f t.db ≡ balance_of f s.db +ℤ net (on_fund f e.lines)
post-balance conn e s h f =
    balance_of-IsWritten conn (posting conn e) f (post_journal_entry-eq-ok conn e s h).0

-- A reversal takes from the balance of each fund exactly what the original entry put there.
pub reversal-balance :
    (conn : Conn) (original_id : ℕ) (reason : String) (posted_by : ℕ) (s : State) {id : ℕ}
    {t : State}
    → reverse_journal_entry conn original_id reason posted_by s ≡ (ok id, t)
    → (o : JournalEntry) × (entry_with original_id (journal s.db) ≡ some o)
      × ((f : ℕ) → balance_of f t.db ≡ balance_of f s.db -ℤ net (on_fund f o.lines))
reversal-balance conn original_id reason posted_by s h =
    let r = reversal_lem conn original_id reason posted_by s h in
    (
      r.original,
      r.found,
      λ f.
          balance_of-IsWritten conn (reversing conn original_id reason posted_by s.db r.dates) f
            r.written
          ∙ ap (λ (x : JournalEntry). balance_of f s.db +ℤ net (on_fund f x.lines)) r.corrects
          ∙ ap (λ (m : List NewLine). balance_of f s.db +ℤ net m) (on_fund-swap f r.original.lines)
          ∙ ap (λ z. balance_of f s.db +ℤ z) (net-swap (on_fund f r.original.lines))
          ∙ omega int_laws,
    )
