-- ===== src/Ledger/Posting/Decided.antt =====
-- Which entries PostJournalEntry takes on a connection that enforces foreign keys.
use nonprofit_ledger.Prelude.{
  ℕ, ⊤, String, All-weaken, map, ◌≡◌, ◌↔◌, sym, ◌∙◌, ap, true, false, not, ◌&&◌, contains, is_empty,
  All, none, List, [], ◌∷◌, arith,
}
use nonprofit_ledger.Schema.{
  Db, AccountRow, FundRow, UserRow, EntryRow, LineRow, entry_ids, user_ids,
}
use nonprofit_ledger.Exec.{
  Conn, State, Result, ok, no_lines, not_balanced, period_locked, later, tick, statement, ◌>>=◌,
}
use nonprofit_ledger.Exec.Inversion.{
  >>=-eq-ok, statement_then, fallible_then, query_then, raise_if_then, transact-eq-ok,
}
use nonprofit_ledger.Audit
use nonprofit_ledger.Ledger.Entry.{
  NewLine, NewEntry, line_references, insert_line, insert_lines, insert_entry,
}
use nonprofit_ledger.Ledger.Entry.Inserts.{insert_entry-eq-done, insert_line-eq-done}
use nonprofit_ledger.Ledger.Posting.{
  balances, default_source, locked_date, is_locked, check_lines, post_tx, post_journal_entry,
}
use nonprofit_ledger.Ledger.Posting.Steps.{check_lines-eq-ok}
use nonprofit_ledger.Ledger.Posting.Effect.{post_journal_entry-eq-ok}
use nonprofit_ledger.Ledger.Posting.Accepts.{calm, IsPlaced, IsAcceptable, post_succeeds}

-- Tables with the same accounts, funds and users.
record SameRegisters (before after : Db) : Type 0 where
  accounts : after.accounts ≡ before.accounts
  funds : after.funds ≡ before.funds
  users : after.users ≡ before.users

same_db : (before after : Db) → after ≡ before → SameRegisters before after
same_db before after h = record {
  accounts = ap (λ (d : Db). d.accounts) h;
  funds = ap (λ (d : Db). d.funds) h;
  users = ap (λ (d : Db). d.users) h;
}

-- A write to the journal.
journal_only :
    {before after : Db} {entries : List EntryRow} {lines : List LineRow}
    → after ≡ record before { entries = entries; lines = lines }
    → SameRegisters before after
journal_only made = record {
  accounts = ap (λ (d : Db). d.accounts) made;
  funds = ap (λ (d : Db). d.funds) made;
  users = ap (λ (d : Db). d.users) made;
}

then_same : {a b c : Db} → SameRegisters a b → SameRegisters b c → SameRegisters a c
then_same p q = record {
  accounts = q.accounts ∙ p.accounts;
  funds = q.funds ∙ p.funds;
  users = q.users ∙ p.users;
}

IsPlaced-before :
    {a b : Db} → SameRegisters a b → (ls : List NewLine) → All (IsPlaced b) ls → All (IsPlaced a) ls
IsPlaced-before {a} {b} same = All-weaken (IsPlaced b) (IsPlaced a) (λ l p. (
  ap (λ (m : List AccountRow). contains l.account_id (map (λ (r : AccountRow). r.id) m))
        (sym same.accounts)
      ∙ p.0,
  ap (λ (m : List FundRow). contains l.fund_id (map (λ (r : FundRow). r.id) m)) (sym same.funds)
      ∙ p.1,
))

module _ (conn : Conn) (enforced : conn.foreign_keys ≡ true) where
  line-IsPlaced :
      (id : ℕ) (l : NewLine) (db : Db)
      → (conn.foreign_keys && not (line_references id l db)) ≡ false
      → IsPlaced db l
  unfolding line_references
  line-IsPlaced id l db h = (ground arith, ground arith)

  insert_lines-IsPlaced :
      (id : ℕ) (ls : List NewLine) (s : State) {t : State}
      → insert_lines conn id ls s ≡ (ok tt, t)
      → All (IsPlaced s.db) ls × SameRegisters s.db t.db
  unfolding insert_lines
  insert_lines-IsPlaced id [] s {t} h =
      (tt, same_db s.db t.db (ap (λ (p : Result ⊤ × State). p.1.db) (sym h)))
  insert_lines-IsPlaced id (l ∷ ls) s {t} h =
      let (_, db, inserted, h₁) = statement_then (insert_line conn id l) _ s h in
      let (checked, known, made) = insert_line-eq-done conn id l s.db inserted in
      let (placed, same) =
        insert_lines-IsPlaced id ls (record { db = db; faults = later s.faults }) h₁ in
      let first : SameRegisters s.db db = journal_only made in
      ((line-IsPlaced id l s.db known, IsPlaced-before first ls placed), then_same first same)

  write-poster :
      (user : ℕ) (action : String) (id : ℕ) (memo : String) (s : State) {t : State}
      → Audit.write conn user action "journal_entry" id memo s ≡ (ok tt, t)
      → contains user (user_ids s.db) ≡ true
  unfolding Audit.write Audit.insert_audit statement ◌>>=◌
  write-poster user action id memo s h = ground arith

  post_tx-IsPlaced :
      (e : NewEntry) (s : State) {id : ℕ} {t : State}
      → post_tx conn e s ≡ (ok id, t)
      → All (IsPlaced s.db) e.lines × (contains e.posted_by (user_ids s.db) ≡ true)
  unfolding post_tx
  post_tx-IsPlaced e s h =
      let h₁ = query_then (λ db. locked_date db.period) _ s h in
      let (unlocked, h₂) =
        raise_if_then (is_locked e.entry_date (locked_date s.db.period)) period_locked _ (tick s)
          h₁ in
      let (_, u, looked, h₃) = >>=-eq-ok (check_lines e.lines) _ (tick s) h₂ in
      let (classified, same) = check_lines-eq-ok e.lines (tick s) looked in
      let (entry_id, db, inserted, h₄) =
        statement_then
          (insert_entry conn e.entry_date e.memo e.posted_by conn.datetime_now
            (default_source e.source) none)
          _ u h₃ in
      let v : State = record { db = db; faults = later u.faults } in
      let h₅ = fallible_then entry_id _ v h₄ in
      let (fresh, made) =
        insert_entry-eq-done conn e.entry_date e.memo e.posted_by conn.datetime_now
          (default_source e.source) none u.db inserted in
      let (_, w, wrote, h₆) = >>=-eq-ok (insert_lines conn entry_id e.lines) _ (tick v) h₅ in
      let (_, x, logged, h₇) =
        >>=-eq-ok (Audit.write conn e.posted_by "create" "journal_entry" entry_id e.memo) _ w h₆ in
      let (placed, rest) = insert_lines-IsPlaced entry_id e.lines (tick v) wrote in
      let first : SameRegisters s.db db = then_same (same_db s.db u.db same) (journal_only made) in
      let poster = write-poster e.posted_by "create" entry_id e.memo w logged in
      (
        IsPlaced-before first e.lines placed,
        ap (λ (m : List UserRow). contains e.posted_by (map (λ (r : UserRow). r.id) m))
              (sym (then_same first rest).users)
            ∙ poster,
      )

  posted-IsAcceptable :
      (e : NewEntry) (db : Db) {id : ℕ} {t : State}
      → post_journal_entry conn e (calm db) ≡ (ok id, t)
      → IsAcceptable conn e db
  unfolding post_journal_entry
  posted-IsAcceptable e db {id} {t} h =
      let accepted = (post_journal_entry-eq-ok conn e (calm db) h).1 in
      let (nonempty, h₁) = raise_if_then (is_empty e.lines) no_lines _ (calm db) h in
      let (balanced, h₂) = raise_if_then (not (balances e.lines)) not_balanced _ (calm db) h₁ in
      let (u, ran, kept) = transact-eq-ok (post_tx conn e) (calm db) h₂ in
      let (placed, poster) = post_tx-IsPlaced e (tick (calm db)) ran in
      record {
        nonempty = accepted.nonempty;
        balanced = accepted.balanced;
        unlocked = accepted.unlocked;
        classified = accepted.classified;
        checked = accepted.checked;
        placed = placed;
        poster = poster;
      }

  -- On a connection that enforces foreign keys, when the driver fails no call, PostJournalEntry
  -- returns an id, which is the next one of the table, exactly when the entry has lines, passes the
  -- balance check, is dated after the locked-through date, names accounts and funds that are there,
  -- has a category on every line of an expense account, meets the CHECK constraints, and is posted
  -- by a user who is there.
  pub post-decides :
      (e : NewEntry) (db : Db)
      → ((after : Db) × (post_journal_entry conn e (calm db)
            ≡ (ok (conn.row_id (entry_ids db)), calm after)))
        ↔ IsAcceptable conn e db
  post-decides e db = (λ (after, posted). posted-IsAcceptable e db posted, post_succeeds conn e db)
