-- ===== src/Exec/Inversion.antt =====
-- What a call that returned must have done, and what a transaction leaves when it fails.
use nonprofit_ledger.Prelude.{
  ⊤, Option, some, ◌≡◌, refl, Bool, false, arith, inl, inr, Bool-cases, ℕ, List, contains,
}
use nonprofit_ledger.Schema.{Db}
use nonprofit_ledger.Exec.{
  Conn, State, Exec, Result, ok, err, Error, Outcome, done, ◌>>=◌, statement, transact, query,
  fallible, or_raise, raise_if, continue, is_due, later, tick, attempt, begin, finish,
}

module _ {ℓ κ} {A : Type ℓ} {B : Type κ} where
  continue-eq-ok :
      (r : Result A) (f : A → Exec B) (s : State) {b : B} {t : State}
      → continue r f s ≡ (ok b, t)
      → (a : A) × (r ≡ ok a) × (f a s ≡ (ok b, t))
  continue-eq-ok (ok a) f s h = (a, refl, h)
  continue-eq-ok (err e) f s h = cc

  pub >>=-eq-ok :
      (m : Exec A) (f : A → Exec B) (s : State) {b : B} {t : State}
      → (m >>= f) s ≡ (ok b, t)
      → (a : A) × (u : State) × (m s ≡ (ok a, u)) × (f a u ≡ (ok b, t))
  unfolding ◌>>=◌
  >>=-eq-ok m f s h =
      let (a, e, k) = continue-eq-ok (m s).0 f (m s).1 h in (a, (m s).1, λ i. (e i, (m s).1), k)

  -- A call goes on from one that has returned.
  pub >>=-ok :
      (m : Exec A) (f : A → Exec B) (s : State) {a : A} {t : State}
      → m s ≡ (ok a, t)
      → (m >>= f) s ≡ f a t
  unfolding ◌>>=◌
  >>=-ok m f s h = rw h

  pub >>=-err :
      (m : Exec A) (f : A → Exec B) (s : State) {e : Error} {t : State}
      → m s ≡ (err e, t)
      → (m >>= f) s ≡ (err e, t)
  unfolding ◌>>=◌
  >>=-err m f s h = rw h

module _ {A : Type 0} where
  attempt-eq-ok :
      (b : Bool) (f : Db → Outcome A) (s : State) {a : A} {t : State}
      → attempt b f s ≡ (ok a, t)
      → f s.db ≡ done a t.db
  attempt-eq-ok b f s h = ground arith

  -- A statement that returned has run on the tables.
  pub statement-eq-ok :
      (f : Db → Outcome A) (s : State) {a : A} {t : State}
      → statement f s ≡ (ok a, t)
      → f s.db ≡ done a t.db
  unfolding statement
  statement-eq-ok f s h = attempt-eq-ok (is_due s.faults) f (tick s) h

  -- A statement that is due to succeed, on tables where no constraint stops it.
  pub statement-ok :
      (f : Db → Outcome A) (s : State) {a : A} {db : Db}
      → is_due s.faults ≡ false
      → f s.db ≡ done a db
      → statement f s ≡ (ok a, record { db = db; faults = later s.faults })
  unfolding statement
  statement-ok f s h k = ground arith

  -- A refused statement leaves the tables alone.
  pub statement-eq-err :
      (f : Db → Outcome A) (s : State) {e : Error} {t : State}
      → statement f s ≡ (err e, t)
      → t.db ≡ s.db
  unfolding statement
  statement-eq-err f s h = ground arith

  finish_atomic :
      (before : Db) (r : Result A) (s : State) {e : Error} {t : State}
      → finish before r s ≡ (err e, t)
      → t.db ≡ before
  finish_atomic before r s h = ground arith

  -- A transaction that returns an error leaves the tables as they were.
  pub transact_atomic :
      (body : Exec A) (s : State) {e : Error} {t : State}
      → transact body s ≡ (err e, t)
      → t.db ≡ s.db
  unfolding transact
  transact_atomic body s h = elim (Bool-cases (is_due s.faults)) [
    | inl failed ↦ ground arith
    | inr started ↦
        finish_atomic s.db (body (tick s)).0 (body (tick s)).1 (rw (started, begin) at h)
  ]

  finish-eq-ok :
      (before : Db) (r : Result A) (s : State) {a : A} {t : State}
      → finish before r s ≡ (ok a, t)
      → (r ≡ ok a) × (t.db ≡ s.db)
  finish-eq-ok before r s h = ground arith

  -- One that returns a value has run its body to the end, and keeps what that did.
  pub transact-eq-ok :
      (body : Exec A) (s : State) {a : A} {t : State}
      → transact body s ≡ (ok a, t)
      → (u : State) × (body (tick s) ≡ (ok a, u)) × (t.db ≡ u.db)
  unfolding transact
  transact-eq-ok body s h = elim (Bool-cases (is_due s.faults)) [
    | inl failed ↦ absurd (ground arith)
    | inr started ↦
        let (same, kept) =
          finish-eq-ok s.db (body (tick s)).0 (body (tick s)).1 (rw (started, begin) at h) in
        ((body (tick s)).1, (λ i. (same i, (body (tick s)).1)), kept)
  ]

  pub query-eq-ok :
      (f : Db → A) (s : State) {a : A} {t : State}
      → query f s ≡ (ok a, t)
      → (a ≡ f s.db) × (t.db ≡ s.db)
  unfolding query
  query-eq-ok f s h =
      let e = statement-eq-ok (λ db. done (f db) db) s h in (ground arith, ground arith)

  pub or_raise-eq-ok :
      (o : Option A) (e : Error) (s : State) {a : A} {t : State}
      → or_raise o e s ≡ (ok a, t)
      → (o ≡ some a) × (t ≡ s)
  or_raise-eq-ok o e s h = ground arith

pub raise_if-eq-ok :
    (b : Bool) (e : Error) (s : State) {a : ⊤} {t : State}
    → raise_if b e s ≡ (ok a, t)
    → (b ≡ false) × (t ≡ s)
raise_if-eq-ok b e s h = ground arith

-- A chain that returned, taken apart at its first call: the rest of it runs from a state that
-- computes.
module _ {A : Type 0} where
  pub raise_if_then :
      (b : Bool) (e : Error) (k : ⊤ → Exec A) (s : State) {a : A} {t : State}
      → (raise_if b e >>= k) s ≡ (ok a, t)
      → (b ≡ false) × (k tt s ≡ (ok a, t))
  unfolding ◌>>=◌
  raise_if_then b e k s h = ground arith

module _ {A B : Type 0} where
  pub statement_then :
      (f : Db → Outcome A) (k : A → Exec B) (s : State) {b : B} {t : State}
      → (statement f >>= k) s ≡ (ok b, t)
      → (a : A) × (db : Db) × (f s.db ≡ done a db)
        × (k a (record { db = db; faults = later s.faults }) ≡ (ok b, t))
  unfolding ◌>>=◌ statement
  statement_then f k s h = ground arith

  pub fallible_then :
      (a : A) (k : A → Exec B) (s : State) {b : B} {t : State}
      → (fallible a >>= k) s ≡ (ok b, t)
      → k a (tick s) ≡ (ok b, t)
  unfolding ◌>>=◌ fallible
  fallible_then a k s h = ground arith

  pub query_then :
      (f : Db → A) (k : A → Exec B) (s : State) {b : B} {t : State}
      → (query f >>= k) s ≡ (ok b, t)
      → k (f s.db) (tick s) ≡ (ok b, t)
  unfolding ◌>>=◌ query
  query_then f k s h = ground arith

  pub or_raise_then :
      (o : Option A) (e : Error) (k : A → Exec B) (s : State) {b : B} {t : State}
      → (or_raise o e >>= k) s ≡ (ok b, t)
      → (a : A) × (o ≡ some a) × (k a s ≡ (ok b, t))
  unfolding ◌>>=◌
  or_raise_then o e k s h = ground arith

-- The id that a new row gets is new.
pub new_id : (conn : Conn) (ids : List ℕ) → contains (conn.row_id ids) ids ≡ false
new_id conn ids = elim (Bool-cases (contains (conn.row_id ids) ids)) [
  | inl taken ↦ absurd (ground (arith, conn.row_id_above ids (conn.row_id ids) taken))
  | inr free ↦ free
]
