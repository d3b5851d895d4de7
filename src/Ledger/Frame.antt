-- ===== src/Ledger/Frame.antt =====
-- What the functions that write do to the tables, as a relation that holds of each of the statements
-- they run: the frame for all invariants of histories.
pub mod Registers
pub mod Startup
use nonprofit_ledger.Prelude.{
  ℕ, ⊤, String, ◌≡◌, refl, Bool, true, false, not, eqb, contains, is_empty, Option, none, some,
  List, [], ◌∷◌, ◌==◌, map, arith,
}
use nonprofit_ledger.Schema.{Db, UserRow, account_ids}
use nonprofit_ledger.Exec.{
  Conn, Exec, ok, Error, sql, no_rows, no_lines, not_balanced, period_locked, category_required,
  account_missing, original_missing, original_has_no_lines, action_empty, entity_type_empty,
  code_required, invalid_type, parent_missing, invalid_class, invalid_role, Outcome, done, raise_if,
  or_raise, statement, query, fallible, transact, ◌>>=◌,
}
use nonprofit_ledger.Exec.Keeps.{
  Keeps, pure-Keeps, or_raise-Keeps, statement-Keeps, query-Keeps, fallible-Keeps,
  on_sql_error-Keeps, transact-Keeps, raise_if-Keeps, >>=-Keeps,
}
use nonprofit_ledger.Audit
use nonprofit_ledger.Ledger.Entry.{NewLine, NewEntry, insert_entry, insert_line, insert_lines}
use nonprofit_ledger.Ledger.Posting.{
  balances, default_source, locked_date, is_locked, get_locked_through_date_tx, account_type,
  lookup_account_type, lacks_category, check_lines, post_tx, post_journal_entry,
}
use nonprofit_ledger.Ledger.Reversal.{
  read_dates, read_lines, read_reversal_lines, swapped, reversal_memo, reverse_journal_entry,
}
use nonprofit_ledger.Ledger.Period.{upsert_period, lock_period}
use nonprofit_ledger.Ledger.Accounts.{
  NewAccount, valid_account_type, check_parent, insert_account, create_account,
}
use nonprofit_ledger.Ledger.Funds.{NewFund, valid_net_asset_class, insert_fund, create_fund}
use nonprofit_ledger.Users.{
  valid_role, create_error, insert_user, create_user, update_users, with_role, inactive,
  update_role, deactivate,
}

module _ (R : Db → Db → Type 0) where
  -- A statement that keeps the relation.
  abbrev pub Of : {A : Type 0} → (Db → Outcome A) → Type 0
  Of {A} f = (db : Db) (a : A) (db' : Db) → f db ≡ done a db' → R db db'

module _ (R : Db → Db → Type 0) (same : (db : Db) → R db db)
    (both : (before middle after : Db) → R before middle → R middle after → R before after) where
  -- A call that keeps the relation, for every state that it may start from.
  abbrev Kept : {A : Type 0} → Exec A → Type 0
  Kept = Keeps R same both

  module _ {A B : Type 0} where
    pub bind-Kept : (m : Exec A) (f : A → Exec B) → Kept m → ((a : A) → Kept (f a)) → Kept (m >>= f)
    bind-Kept = >>=-Keeps R same both

  module _ {A : Type 0} where
    pub guard-Kept :
        (b : Bool) (e : Error) (k : ⊤ → Exec A)
        → (b ≡ false → Kept (k tt))
        → Kept (raise_if b e >>= k)
    unfolding ◌>>=◌
    guard-Kept true e k h s = same s.db
    guard-Kept false e k h s = h refl s

  module _
      (audit : (conn : Conn) (user : ℕ) (action type : String) (id : ℕ) (detail : String)
        → Of R (Audit.insert_audit conn user action type id detail)) where
    write-Kept :
        (conn : Conn) (user : ℕ) (action type : String) (id : ℕ) (detail : String)
        → Kept (Audit.write conn user action type id detail)
    unfolding Audit.write
    write-Kept conn user action type id detail = guard-Kept (action == "") action_empty _ (λ p.
        guard-Kept (type == "") entity_type_empty _ (λ q.
          statement-Keeps R same both (Audit.insert_audit conn user action type id detail)
            (audit conn user action type id detail)))

    pub lock_period-Keeps :
        ((date : String) (user : ℕ) (at : String) → Of R (upsert_period date user at))
        → (conn : Conn) (date : String) (user : ℕ) → Kept (lock_period conn date user)
    unfolding lock_period
    lock_period-Keeps period conn date user = transact-Keeps R same both _ (
        bind-Kept (statement (upsert_period date user conn.rfc3339_now)) _
          (statement-Keeps R same both _ (period date user conn.rfc3339_now))
          (λ u. write-Kept conn user "lock_period" "accounting_period" 1 date))

    module _
        (entry : (conn : Conn) (date memo : String) (user : ℕ) (at source : String)
            (reverses : Option ℕ)
          → Of R (insert_entry conn date memo user at source reverses))
        (line : (conn : Conn) (id : ℕ) (l : NewLine) → Of R (insert_line conn id l)) where
      insert_lines-Kept :
          (conn : Conn) (id : ℕ) (lines : List NewLine) → Kept (insert_lines conn id lines)
      unfolding insert_lines
      insert_lines-Kept conn id [] = pure-Keeps R same both tt
      insert_lines-Kept conn id (l ∷ lines) =
          bind-Kept (statement (insert_line conn id l)) _
            (statement-Keeps R same both (insert_line conn id l) (line conn id l))
            (λ u. insert_lines-Kept conn id lines)

      -- What both kinds of entries end with: the id, the lines, the audit row.
      finish-Kept :
          (conn : Conn) (user : ℕ) (action memo : String) (lines : List NewLine) (row_id : ℕ)
          → Kept (
              fallible row_id >>= λ id. insert_lines conn id lines >>= λ u.
              Audit.write conn user action "journal_entry" id memo >>= λ u s. (ok id, s))
      finish-Kept conn user action memo lines row_id =
          bind-Kept (fallible row_id) _ (fallible-Keeps R same both row_id) (λ id.
            bind-Kept (insert_lines conn id lines) _ (insert_lines-Kept conn id lines) (λ u.
              bind-Kept (Audit.write conn user action "journal_entry" id memo) _
                (write-Kept conn user action "journal_entry" id memo) (λ u s. same s.db)))

      check_lines-Kept : (lines : List NewLine) → Kept (check_lines lines)
      unfolding check_lines lookup_account_type
      check_lines-Kept [] = pure-Keeps R same both tt
      check_lines-Kept (l ∷ lines) =
          bind-Kept (lookup_account_type l.account_id) _
            (bind-Kept (query (account_type l.account_id)) _ (query-Keeps R same both _)
              (λ found. or_raise-Keeps R same both found (account_missing l.account_id)))
            (λ type.
              guard-Kept (lacks_category type l.functional_category)
                (category_required l.account_id) _ (λ p. check_lines-Kept lines))

      post_tx-Kept : (conn : Conn) (e : NewEntry) → Kept (post_tx conn e)
      unfolding post_tx get_locked_through_date_tx
      post_tx-Kept conn e =
          bind-Kept (query (λ db. locked_date db.period)) _ (query-Keeps R same both _)
            (λ locked_through.
              guard-Kept (is_locked e.entry_date locked_through) period_locked _ (λ p.
                bind-Kept (check_lines e.lines) _ (check_lines-Kept e.lines) (λ u.
                  bind-Kept
                    (statement (
                      insert_entry conn e.entry_date e.memo e.posted_by conn.datetime_now
                        (default_source e.source) none))
                    _
                    (statement-Keeps R same both _ (
                      entry conn e.entry_date e.memo e.posted_by conn.datetime_now
                        (default_source e.source) none))
                    (finish-Kept conn e.posted_by "create" e.memo e.lines))))

      pub post_journal_entry-Keeps : (conn : Conn) (e : NewEntry) → Kept (post_journal_entry conn e)
      unfolding post_journal_entry
      post_journal_entry-Keeps conn e = guard-Kept (is_empty e.lines) no_lines _ (λ p.
          guard-Kept (not (balances e.lines)) not_balanced _
            (λ q. transact-Keeps R same both (post_tx conn e) (post_tx-Kept conn e)))

      reverse_journal_entry-Kept :
          (conn : Conn) (original_id : ℕ) (reason : String) (posted_by : ℕ)
          → Kept (reverse_journal_entry conn original_id reason posted_by)
      unfolding reverse_journal_entry read_reversal_lines
      reverse_journal_entry-Kept conn original_id reason posted_by =
          bind-Kept (query (read_dates original_id)) _ (query-Keeps R same both _) (λ found.
            bind-Kept (or_raise found original_missing) _
              (or_raise-Keeps R same both found original_missing)
              (λ dates.
                bind-Kept (query (read_lines original_id)) _ (query-Keeps R same both _) (λ lines.
                  guard-Kept (is_empty lines) original_has_no_lines _ (λ p.
                    bind-Kept
                      (statement (
                        insert_entry conn dates.0 (reversal_memo reason) posted_by dates.1
                          "reversal" (some original_id)))
                      _
                      (statement-Keeps R same both _ (
                        entry conn dates.0 (reversal_memo reason) posted_by dates.1 "reversal"
                          (some original_id)))
                      (finish-Kept conn posted_by "reversal" (reversal_memo reason)
                        (map swapped lines))))))

      pub reverse_journal_entry-Keeps :
          (conn : Conn) (original_id : ℕ) (reason : String) (posted_by : ℕ)
          → Kept (transact (reverse_journal_entry conn original_id reason posted_by))
      reverse_journal_entry-Keeps conn original_id reason posted_by =
          transact-Keeps R same both _
            (reverse_journal_entry-Kept conn original_id reason posted_by)
