-- ===== src/Exec/Keeps.antt =====
-- What calls do to the tables, as a relation of the tables before to those after that holds of each
-- statement and so of what is put together from them.
use nonprofit_ledger.Prelude.{◌≡◌, refl, subst, Bool, true, false, Option, none, some}
use nonprofit_ledger.Schema.{Db}
use nonprofit_ledger.Exec.{
  State, Exec, Result, ok, err, Error, SqlError, Outcome, done, fail, pure, raise_if, or_raise,
  continue, ◌>>=◌, is_due, tick, settle, attempt, statement, query, fallible, commit, finish, begin,
  transact, on_sql_error,
}

module _ (R : Db → Db → Type 0) (same : (db : Db) → R db db)
    (both : (before middle after : Db) → R before middle → R middle after → R before after) where
  abbrev pub Keeps : {A : Type 0} → Exec A → Type 0
  Keeps m = (s : State) → R s.db (m s).1.db

  module _ {A : Type 0} where
    pub pure-Keeps : (a : A) → Keeps (pure a)
    pure-Keeps a s = same s.db

    pub or_raise-Keeps : (o : Option A) (e : Error) → Keeps (or_raise o e)
    or_raise-Keeps none e s = same s.db
    or_raise-Keeps (some a) e s = same s.db

    settle-Keeps :
        (o : Outcome A) (s : State)
        → ((a : A) (db : Db) → o ≡ done a db → R s.db db)
        → R s.db (settle o s).1.db
    settle-Keeps (done a db) s h = h a db refl
    settle-Keeps (fail e) s h = same s.db

    attempt-Keeps :
        (b : Bool) (f : Db → Outcome A) (s : State)
        → ((db : Db) (a : A) (db' : Db) → f db ≡ done a db' → R db db')
        → R s.db (attempt b f s).1.db
    attempt-Keeps true f s h = same s.db
    attempt-Keeps false f s h = settle-Keeps (f s.db) s (h s.db)

    pub statement-Keeps :
        (f : Db → Outcome A)
        → ((db : Db) (a : A) (db' : Db) → f db ≡ done a db' → R db db')
        → Keeps (statement f)
    unfolding statement
    statement-Keeps f h s = attempt-Keeps (is_due s.faults) f (tick s) h

    pub query-Keeps : (f : Db → A) → Keeps (query f)
    unfolding query
    query-Keeps f =
        statement-Keeps (λ db. done (f db) db)
          (λ db a db' e. let unchanged : db ≡ db' = cc in subst (R db) unchanged (same db))

    pub fallible-Keeps : (a : A) → Keeps (fallible a)
    unfolding fallible
    fallible-Keeps a =
        statement-Keeps (λ db. done a db)
          (λ db b db' e. let unchanged : db ≡ db' = cc in subst (R db) unchanged (same db))

    pub on_sql_error-Keeps :
        (f : SqlError → Error) (m : Exec A) → Keeps m → Keeps (on_sql_error f m)
    unfolding on_sql_error
    on_sql_error-Keeps f m h s = h s

    commit-Keeps :
        (b : Bool) (before : Db) (a : A) (s : State)
        → R before s.db
        → R before (commit b before a s).1.db
    commit-Keeps true before a s h = same before
    commit-Keeps false before a s h = h

    finish-Keeps :
        (before : Db) (r : Result A) (s : State) → R before s.db → R before (finish before r s).1.db
    finish-Keeps before (ok a) s h = commit-Keeps (is_due s.faults) before a (tick s) h
    finish-Keeps before (err e) s h = same before

    begin-Keeps : (b : Bool) (body : Exec A) (s : State) → Keeps body → R s.db (begin b body s).1.db
    begin-Keeps true body s h = same s.db
    begin-Keeps false body s h = finish-Keeps s.db (body s).0 (body s).1 (h s)

    pub transact-Keeps : (body : Exec A) → Keeps body → Keeps (transact body)
    unfolding transact
    transact-Keeps body h s = begin-Keeps (is_due s.faults) body (tick s) h

  pub raise_if-Keeps : (b : Bool) (e : Error) → Keeps (raise_if b e)
  raise_if-Keeps true e s = same s.db
  raise_if-Keeps false e s = same s.db

  module _ {A B : Type 0} where
    continue-Keeps :
        (r : Result A) (f : A → Exec B) (s : State)
        → ((a : A) → Keeps (f a))
        → R s.db (continue r f s).1.db
    continue-Keeps (ok a) f s h = h a s
    continue-Keeps (err e) f s h = same s.db

    pub >>=-Keeps :
        (m : Exec A) (f : A → Exec B) → Keeps m → ((a : A) → Keeps (f a)) → Keeps (m >>= f)
    unfolding ◌>>=◌
    >>=-Keeps m f hm hf s =
        both s.db (m s).1.db (continue (m s).0 f (m s).1).1.db (hm s)
          (continue-Keeps (m s).0 f (m s).1 hf)
