-- ===== src/Ledger/Journal/Posted.antt =====
-- A posting, as it shows in the journal.
use nonprofit_ledger.Prelude.{ℕ, ◌≡◌, false, contains, [], ◌∷◌, ◌++◌}
use nonprofit_ledger.Schema.{entry_ids}
use nonprofit_ledger.Exec.{Conn, State, ok}
use nonprofit_ledger.Ledger.Entry.{NewEntry}
use nonprofit_ledger.Ledger.Posting.{post_journal_entry}
use nonprofit_ledger.Ledger.Posting.Effect.{posting, post_journal_entry-eq-ok}
use nonprofit_ledger.Ledger.Journal.{journal, IsSound}
use nonprofit_ledger.Ledger.Journal.Written.{
  numbered, journal-IsWritten, IsWritten-IsSound, IsWritten-fresh,
}

-- On tables whose lines all belong to entries, a posting that returns an id adds to the journal, at
-- its end, exactly the entry it was asked for, under that id, which no entry had, with its lines in
-- their order; all entries before it keep every field and line, and all lines still belong to entries.
pub post-appends :
    (conn : Conn) (e : NewEntry) (s : State) {id : ℕ} {t : State}
    → IsSound s.db
    → post_journal_entry conn e s ≡ (ok id, t)
    → (journal t.db ≡ journal s.db ++ numbered (posting conn e) id ∷ [])
      × (contains id (entry_ids s.db) ≡ false)
      × IsSound t.db
post-appends conn e s sound h =
    let (written, accepted) = post_journal_entry-eq-ok conn e s h in
    let d = posting conn e in
    (
      journal-IsWritten conn d sound written,
      IsWritten-fresh conn d sound written,
      IsWritten-IsSound conn d sound written,
    )
