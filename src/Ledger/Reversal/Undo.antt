-- ===== src/Ledger/Reversal/Undo.antt =====
-- A posting and its reversal, one after the other.
use nonprofit_ledger.Prelude.{
  ℕ, String, ◌≡◌, refl, sym, ◌∙◌, ap, subst, true, false, contains, eqb, find-append, All, some,
  none, List, [], ◌∷◌, ◌++◌, map, arith,
}
use nonprofit_ledger.Prelude.Int.{◌+ℤ◌, ◌-ℤ◌, int_laws}
use nonprofit_ledger.Schema.{Db, EntryRow, LineRow, entry_ids, user_ids}
use nonprofit_ledger.Exec.{Conn, ok, tick, transact}
use nonprofit_ledger.Exec.Inversion.{transact-eq-ok}
use nonprofit_ledger.Ledger.Entry.{NewLine, NewEntry, line_checks}
use nonprofit_ledger.Ledger.Entry.Written.{draft_row}
use nonprofit_ledger.Ledger.Posting.{post_journal_entry}
use nonprofit_ledger.Ledger.Posting.Effect.{posting, post_journal_entry-eq-ok}
use nonprofit_ledger.Ledger.Posting.Accepts.{
  calm, IsPlaced, IsAcceptable, new_row-listed, post_succeeds,
}
use nonprofit_ledger.Ledger.Reversal.{reverse_journal_entry}
use nonprofit_ledger.Ledger.Reversal.Accepts.{IsReversible, reverse_succeeds}
use nonprofit_ledger.Ledger.Journal.{JournalEntry, entry_of, journal, IsSound}
use nonprofit_ledger.Ledger.Journal.Written.{numbered}
use nonprofit_ledger.Ledger.Journal.Posted.{post-appends}
use nonprofit_ledger.Ledger.Journal.Reversed.{swap, entry_with}
use nonprofit_ledger.Ledger.Totals.{net, on_fund}
use nonprofit_ledger.Ledger.Books.Cancel.{balance_of, post-balance, reversal-balance}

-- The CHECK constraints do not tell the two sides apart.
line_checks-swap : (l : NewLine) → line_checks l ≡ true → line_checks (swap l) ≡ true
unfolding line_checks
line_checks-swap l h = ground arith

All-swap :
    (P Q : NewLine → Type 0)
    → ((l : NewLine) → P l → Q (swap l))
    → (ls : List NewLine) → All P ls
    → All Q (map swap ls)
All-swap P Q f [] h = tt
All-swap P Q f (l ∷ ls) h = (f l h.0, All-swap P Q f ls h.1)

unused-entry_with :
    (lines : List LineRow) (id : ℕ) (rows : List EntryRow)
    → contains id (map (λ (r : EntryRow). r.id) rows) ≡ false
    → entry_with id (map (entry_of lines) rows) ≡ none
unused-entry_with lines id [] h = refl
unused-entry_with lines id (r ∷ rows) h = ground (arith, unused-entry_with lines id rows)

-- The entry at the end of a journal in which its id is new.
last-entry_with :
    (db : Db) (o : JournalEntry)
    → contains o.id (entry_ids db) ≡ false
    → entry_with o.id (journal db ++ o ∷ []) ≡ some o
unfolding journal
last-entry_with db o fresh =
    let self : eqb o.id o.id ≡ true = ground arith in
    find-append (λ (x : JournalEntry). eqb x.id o.id) (journal db) (o ∷ [])
      (unused-entry_with db.lines o.id db.entries fresh)
    ∙ rw self refl

module _ (conn : Conn) (e : NewEntry) (db : Db) where
  -- An entry that has just been posted can be reversed.
  posted-IsReversible :
      (user : ℕ) (posted : Db)
      → IsSound db
      → IsAcceptable conn e db
      → contains user (user_ids db) ≡ true
      → post_journal_entry conn e (calm db) ≡ (ok (conn.row_id (entry_ids db)), calm posted)
      → IsReversible conn
          (conn.row_id (entry_ids db))
          user
          (numbered (posting conn e) (conn.row_id (entry_ids db)))
          posted
  posted-IsReversible user posted sound a there ran =
      let id = conn.row_id (entry_ids db) in
      let d = posting conn e in
      let (grown, fresh, sound') = post-appends conn e (calm db) sound ran in
      let w = (post_journal_entry-eq-ok conn e (calm db) ran).0 in
      let placed : All (IsPlaced posted) e.lines =
        subst (λ after. All (IsPlaced after) e.lines) (sym w.result) a.placed in
      record {
        found = ap (entry_with id) grown ∙ last-entry_with db (numbered d id) fresh;
        filled = a.nonempty;
        listed =
            ap (λ after. contains id (entry_ids after)) w.result
            ∙ new_row-listed conn (draft_row conn d db) db;
        checked =
            All-swap (λ l. line_checks l ≡ true) (λ l. line_checks l ≡ true) line_checks-swap
              e.lines a.checked;
        placed = All-swap (IsPlaced posted) (IsPlaced posted) (λ l p. p) e.lines placed;
        poster = ap (λ after. contains user (user_ids after)) w.result ∙ there;
      }

  -- On tables whose lines all belong to entries, when the driver fails no call: an acceptable entry is
  -- posted and can then be reversed, by any user who is there; the posting changes the balance of each
  -- fund by the debits less the credits of its lines on the fund, and the reversal puts the balance of
  -- each fund back to what it was.
  pub post_then_reverse :
      (reason : String) (user : ℕ)
      → IsSound db
      → IsAcceptable conn e db
      → contains user (user_ids db) ≡ true
      → (posted : Db) × (reversed : Db) × (post_journal_entry conn e (calm db)
          ≡ (ok (conn.row_id (entry_ids db)), calm posted))
        × (transact
              (reverse_journal_entry conn (conn.row_id (entry_ids db)) reason user)
              (calm posted)
            ≡ (ok (conn.row_id (entry_ids posted)), calm reversed))
        × ((f : ℕ)
            → (balance_of f posted ≡ balance_of f db +ℤ net (on_fund f e.lines))
              × (balance_of f reversed ≡ balance_of f db))
  post_then_reverse reason user sound a there =
      let id = conn.row_id (entry_ids db) in
      let (posted, ran) = post_succeeds conn e db a in
      let r = posted-IsReversible user posted sound a there ran in
      let (reversed, undone) = reverse_succeeds conn id reason user posted r in
      let (u, body, kept) = transact-eq-ok _ (calm posted) undone in
      let (o, found, taken) = reversal-balance conn id reason user (tick (calm posted)) body in
      let same : o ≡ numbered (posting conn e) id =
        let both : some o ≡ some (numbered (posting conn e) id) = sym found ∙ r.found in cc in
      (
        posted,
        reversed,
        ran,
        undone,
        λ f. (
          post-balance conn e (calm db) ran f,
          ap (balance_of f) kept
              ∙ taken f
              ∙ ap (λ (x : JournalEntry). balance_of f posted -ℤ net (on_fund f x.lines)) same
              ∙ ap (λ z. z -ℤ net (on_fund f e.lines)) (post-balance conn e (calm db) ran f)
              ∙ omega int_laws,
        ),
      )
