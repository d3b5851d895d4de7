-- ===== src/Ledger/Books/Trail.antt =====
-- The audit log over histories: it only grows, and names the author of each entry of the journal.
use nonprofit_ledger.Prelude.{
  ℕ, String, ◌≡◌, refl, sym, ◌∙◌, ap, subst, Bool, true, ◌&&◌, inl, inr, eqb, any, All, All-append,
  All-weaken, List, [], ◌∷◌, ◌++◌, ◌==◌, append-nil, append_assoc, arith,
}
use nonprofit_ledger.Schema.{Db, EntryRow, AuditRow}
use nonprofit_ledger.Exec.{Conn, State, done, tick, transact}
use nonprofit_ledger.Exec.Inversion.{transact_atomic, transact-eq-ok}
use nonprofit_ledger.Audit.{insert_audit, audit_row}
use nonprofit_ledger.Ledger.Entry.{NewEntry, insert_entry, insert_line}
use nonprofit_ledger.Ledger.Entry.Written.{Draft, draft_row, IsWritten}
use nonprofit_ledger.Ledger.Posting.{post_journal_entry}
use nonprofit_ledger.Ledger.Posting.Atomic.{post_atomic}
use nonprofit_ledger.Ledger.Posting.Effect.{posting, post_journal_entry-eq-ok}
use nonprofit_ledger.Ledger.Reversal.{reverse_journal_entry}
use nonprofit_ledger.Ledger.Reversal.Effect.{reversing, reverse_journal_entry-eq-ok}
use nonprofit_ledger.Ledger.Period.{upsert_period}
use nonprofit_ledger.Ledger.Accounts.{insert_account}
use nonprofit_ledger.Ledger.Funds.{insert_fund}
use nonprofit_ledger.Users.{insert_user, update_users}
use nonprofit_ledger.Ledger.Books.Others.{SameJournal}
use nonprofit_ledger.Ledger.Books.History.{Step, Step-by, Reach, here, next, Result-cases}
use nonprofit_ledger.Ledger.Books.Framed.{IsFrame, Step-framed_with_locks, Reach-framed}

-- The audit log has grown at its end, if at all.
pub record IsGrown (before after : Db) : Type 0 where
  pub more : List AuditRow
  pub grown : after.audit_log ≡ before.audit_log ++ more

kept-IsGrown : (before after : Db) → after.audit_log ≡ before.audit_log → IsGrown before after
kept-IsGrown before after h = record { more = []; grown = h ∙ sym (append-nil before.audit_log) }

insert_audit-IsGrown :
    (conn : Conn) (user : ℕ) (action type : String) (id : ℕ) (detail : String) (before : Db)
    (u : Unit) (after : Db)
    → insert_audit conn user action type id detail before ≡ done u after
    → IsGrown before after
unfolding insert_audit
insert_audit-IsGrown conn user action type id detail before u after h = record {
  more = audit_row conn user action type id detail before ∷ [];
  grown = ground arith;
}

log-IsFrame : IsFrame IsGrown
unfolding insert_entry insert_line insert_account insert_fund insert_user update_users
log-IsFrame = record {
  same = λ db. kept-IsGrown db db refl;
  both = λ before middle after p q. record {
    more = p.more ++ q.more;
    grown =
        q.grown
        ∙ ap (λ (m : List AuditRow). m ++ q.more) p.grown
        ∙ append_assoc before.audit_log p.more q.more;
  };
  audit = insert_audit-IsGrown;
  entry = λ conn date memo user at source reverses db id db' h. kept-IsGrown db db' (ground arith);
  line = λ conn id l db u db' h. kept-IsGrown db db' (ground arith);
  account = λ conn a db id db' h. kept-IsGrown db db' (ground arith);
  fund = λ conn f db id db' h. kept-IsGrown db db' (ground arith);
  user =
      λ conn username hash role active must_change db id db' h. kept-IsGrown db db' (ground arith);
  role = λ id role valid db n db' h. kept-IsGrown db db' (ground arith);
  dismissal = λ id db n db' h. kept-IsGrown db db' (ground arith);
  backup = λ before row. kept-IsGrown before _ refl;
}

upsert_period-IsGrown :
    (date : String) (user : ℕ) (at : String) (before : Db) (u : Unit) (after : Db)
    → upsert_period date user at before ≡ done u after
    → IsGrown before after
upsert_period-IsGrown date user at before u after h = kept-IsGrown before after (ground arith)

-- A row that says who wrote the entry.
abbrev pub is_about : EntryRow → AuditRow → Bool
is_about e a =
    (a.entity_type == "journal_entry" && eqb a.entity_id e.id) && eqb a.actor_user_id e.posted_by

-- Each entry of the journal has a row in the audit log that says who wrote it.
abbrev pub IsAudited : Db → Type 0
IsAudited db = All (λ e. any (is_about e) db.audit_log ≡ true) db.entries

any-append :
    (p : AuditRow → Bool) (xs ys : List AuditRow) → any p xs ≡ true → any p (xs ++ ys) ≡ true
any-append p [] ys h = cc
any-append p (x ∷ xs) ys h = ground (arith, any-append p xs ys)

-- Rows that are found in a log are found in a longer one.
stays-IsAudited :
    {before after : Db}
    → SameJournal before after
    → IsGrown before after
    → IsAudited before
    → IsAudited after
stays-IsAudited {before} {after} same log h =
    subst (All (λ e. any (is_about e) after.audit_log ≡ true)) (sym same.entries) (
      All-weaken (λ e. any (is_about e) before.audit_log ≡ true)
        (λ e. any (is_about e) after.audit_log ≡ true)
        (λ e found.
          ap (any (is_about e)) log.grown ∙ any-append (is_about e) before.audit_log log.more found)
        before.entries h)

any-last :
    (p : AuditRow → Bool) (xs : List AuditRow) (y : AuditRow)
    → p y ≡ true
    → any p (xs ++ y ∷ []) ≡ true
any-last p [] y h = ground arith
any-last p (x ∷ xs) y h = ground (arith, any-last p xs y h)

-- An entry that is written comes with its row.
written-IsAudited :
    (conn : Conn) (d : Draft) (before : Db) (id : ℕ) (after : Db)
    → IsWritten conn d before id after
    → IsAudited before
    → IsAudited after
written-IsAudited conn d before id after w h =
    let row = audit_row conn d.posted_by d.action "journal_entry" id d.memo before in
    let log = before.audit_log ++ row ∷ [] in
    let new = draft_row conn d before in
    let old : All (λ e. any (is_about e) log ≡ true) before.entries =
      All-weaken (λ e. any (is_about e) before.audit_log ≡ true) (λ e. any (is_about e) log ≡ true)
        (λ e found. any-append (is_about e) before.audit_log (row ∷ []) found) before.entries h in
    let fresh : eqb id new.id ≡ true = ground (arith, w.fresh) in
    let author : eqb d.posted_by d.posted_by ≡ true = ground arith in
    let named : is_about new row ≡ true = rw (fresh, author) refl in
    subst IsAudited (sym w.result) (
      All-append _ before.entries (new ∷ []) old
        (any-last (is_about new) before.audit_log row named, tt))

kept-IsAudited : {before after : Db} → after ≡ before → IsAudited before → IsAudited after
kept-IsAudited same h = subst IsAudited (sym same) h

post-IsAudited :
    (conn : Conn) (e : NewEntry) (s : State)
    → IsAudited s.db
    → IsAudited (post_journal_entry conn e s).1.db
post-IsAudited conn e s h =
    elim (Result-cases (post_journal_entry conn e s).0 (post_journal_entry conn e s).1) [
      | inl (x, failed) ↦ kept-IsAudited (post_atomic conn e s failed) h
      | inr (id, posted) ↦
          written-IsAudited conn (posting conn e) s.db id _
            (post_journal_entry-eq-ok conn e s posted).0 h
    ]

reverse-IsAudited :
    (conn : Conn) (original_id : ℕ) (reason : String) (posted_by : ℕ) (s : State)
    → IsAudited s.db
    → IsAudited (transact (reverse_journal_entry conn original_id reason posted_by) s).1.db
reverse-IsAudited conn original_id reason posted_by s h =
    let body = reverse_journal_entry conn original_id reason posted_by in
    elim (Result-cases (transact body s).0 (transact body s).1) [
      | inl (x, failed) ↦ kept-IsAudited (transact_atomic body s failed) h
      | inr (id, made) ↦
          let (u, ran, kept) = transact-eq-ok body s made in
          let (dates, found, filled, written) =
            reverse_journal_entry-eq-ok conn original_id reason posted_by (tick s) ran in
          kept-IsAudited kept (
            written-IsAudited conn (reversing conn original_id reason posted_by s.db dates) s.db id
              u.db written h)
    ]

Step-IsGrown : {before after : Db} → Step before after → IsGrown before after
Step-IsGrown = Step-framed_with_locks IsGrown log-IsFrame upsert_period-IsGrown

Step-IsAudited : {before after : Db} → Step before after → IsAudited before → IsAudited after
Step-IsAudited =
    Step-by (λ before after. IsAudited before → IsAudited after)
      (λ conn e s fits. post-IsAudited conn e s) reverse-IsAudited
      (λ before after st same. stays-IsAudited same (Step-IsGrown st))

all-IsAudited : {before after : Db} → Reach before after → IsAudited before → IsAudited after
all-IsAudited here h = h
all-IsAudited (next r st) h = Step-IsAudited st (all-IsAudited r h)

-- Through any history of postings whose totals fit an int64, reversals, period locks, new accounts
-- and funds, writes of users and scheduled backups, failing or not, the audit log is append-only,
-- and if each entry of the journal had a row that names it and the user who posted it, each entry
-- has one in the end.
pub Reach-IsAudited :
    {before after : Db}
    → IsAudited before
    → Reach before after
    → IsGrown before after × IsAudited after
Reach-IsAudited h r = (Reach-framed IsGrown log-IsFrame upsert_period-IsGrown r, all-IsAudited r h)
