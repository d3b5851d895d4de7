-- ===== src/Ledger/Entry/Lines.antt =====
-- The loop that writes lines, of `PostJournalEntry` and of `ReverseJournalEntry`: what it has added.
use nonprofit_ledger.Prelude.{
  ℕ, ◌≡◌, refl, sym, ◌∙◌, ap, subst, true, false, ◌&&◌, not, All, List, [], ◌∷◌, ◌++◌, map,
  append-nil, append_assoc, arith,
}
use nonprofit_ledger.Schema.{Db, LineRow}
use nonprofit_ledger.Exec.{Conn, State, ok}
use nonprofit_ledger.Exec.Inversion.{statement_then}
use nonprofit_ledger.Ledger.Entry.{
  NewLine, line_checks, line_references, line_row, insert_line, insert_lines,
}
use nonprofit_ledger.Ledger.Entry.Inserts.{insert_line-eq-done}

-- A stored line without its own id and its entry's.
abbrev pub line_of : LineRow → NewLine
line_of r = record {
  account_id = r.account_id;
  fund_id = r.fund_id;
  functional_category = r.functional_category;
  debit_amount = r.debit_amount;
  credit_amount = r.credit_amount;
}

module _ (conn : Conn) where
  -- The lines that a loop of inserts has added.
  pub record IsAppended (entry_id : ℕ) (ls : List NewLine) (before after : Db) : Type 0 where
    pub added : List LineRow
    pub result : after ≡ record before { lines = before.lines ++ added }
    pub bodies : map line_of added ≡ ls
    pub owned : All (λ (r : LineRow). r.entry_id ≡ entry_id) added
    pub checked : All (λ l. line_checks l ≡ true) ls
    pub referenced :
        conn.foreign_keys ≡ true → All (λ l. line_references entry_id l before ≡ true) ls

  IsAppended-nil : (entry_id : ℕ) (db : Db) → IsAppended entry_id [] db db
  IsAppended-nil entry_id db = record {
    added = [];
    result = λ i. record db { lines = sym (append-nil db.lines) i };
    bodies = refl;
    owned = tt;
    checked = tt;
    referenced = λ _. tt;
  }

  IsAppended-cons :
      (entry_id : ℕ) (l : NewLine) (ls : List NewLine) (before : Db) {after : Db}
      → line_checks l ≡ true
      → (conn.foreign_keys && not (line_references entry_id l before)) ≡ false
      → IsAppended entry_id ls
          (record before { lines = before.lines ++ line_row conn entry_id l before ∷ [] })
          after
      → IsAppended entry_id (l ∷ ls) before after
  unfolding line_references
  IsAppended-cons entry_id l ls before checks refs a = record {
    added = line_row conn entry_id l before ∷ a.added;
    result =
        a.result
        ∙ ap (λ (m : List LineRow). record before { lines = m }) (append_assoc before.lines _ _);
    bodies = ap (λ (m : List NewLine). l ∷ m) a.bodies;
    owned = (refl, a.owned);
    checked = (checks, a.checked);
    referenced = λ on. (ground arith, a.referenced on);
  }

  pub insert_lines-eq-ok :
      (entry_id : ℕ) (ls : List NewLine) (s : State) {t : State}
      → insert_lines conn entry_id ls s ≡ (ok tt, t)
      → IsAppended entry_id ls s.db t.db
  unfolding insert_lines
  insert_lines-eq-ok entry_id [] s {t} h =
      let same : s.db ≡ t.db = cc in
      subst (λ db. IsAppended entry_id [] s.db db) same (IsAppended-nil entry_id s.db)
  insert_lines-eq-ok entry_id (l ∷ ls) s {t} h =
      let (_, db, wrote, rest) = statement_then (insert_line conn entry_id l) _ s h in
      let (checks, refs, e) = insert_line-eq-done conn entry_id l s.db wrote in
      IsAppended-cons entry_id l ls s.db checks refs
        (subst (λ db. IsAppended entry_id ls db t.db) e (insert_lines-eq-ok entry_id ls _ rest))
