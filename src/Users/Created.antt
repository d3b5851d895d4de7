-- ===== src/Users/Created.antt =====
-- A user who has been created, looked up again.
use nonprofit_ledger.Prelude.{
  ℕ, String, ◌≡◌, refl, sym, ◌∙◌, ap, Bool, true, false, not, any, contains, eqb, find, find-append,
  none, some, List, [], ◌∷◌, ◌++◌, ◌==◌, eq_iff, map, arith,
}
use nonprofit_ledger.Schema.{Db, UserRow, user_ids}
use nonprofit_ledger.Exec.{
  Conn, State, Exec, Result, ok, Error, SqlError, invalid_role, done, is_due, tick, on_sql_error,
  statement, query, ◌>>=◌,
}
use nonprofit_ledger.Exec.Inversion.{
  >>=-eq-ok, raise_if_then, statement-eq-ok, fallible_then, new_id,
}
use nonprofit_ledger.Users.{
  User, valid_role, role_check, scan_user, by_username, by_id, create_error, user_row, insert_user,
  create_user,
}

on_sql_error-eq-ok :
    {A : Type 0} (f : SqlError → Error) (m : Exec A) (s : State) {a : A} {t : State}
    → on_sql_error f m s ≡ (ok a, t)
    → m s ≡ (ok a, t)
unfolding on_sql_error
on_sql_error-eq-ok f m s h = ground arith

-- What a creation that returned has done.
pub record IsCreated (conn : Conn) (username hash role : String) (u : User) (before after : Db)
    : Type 0 where
  pub free : any (λ (r : UserRow). r.username == username) before.users ≡ false
  pub users : after.users ≡ before.users ++ user_row conn username hash role 1 0 before ∷ []
  pub user : u ≡ scan_user (user_row conn username hash role 1 0 before)

module _ (conn : Conn) (username hash role : String) where
  insert_user-eq-done :
      (db db' : Db) {id : ℕ}
      → insert_user conn username hash role 1 0 db ≡ done id db'
      → (any (λ (r : UserRow). r.username == username) db.users ≡ false)
        × (db'.users ≡ db.users ++ user_row conn username hash role 1 0 db ∷ [])
        × (id ≡ conn.row_id (user_ids db))
  unfolding insert_user role_check
  insert_user-eq-done db db' h = (ground arith, ground arith, ground arith)

  pub create_user-eq-ok :
      (s : State) {u : User} {t : State}
      → create_user conn username hash role s ≡ (ok u, t)
      → IsCreated conn username hash role u s.db t.db
  unfolding create_user scan_user
  create_user-eq-ok s {u} {t} h =
      let (known, h₁) = raise_if_then (not (valid_role role)) invalid_role _ s h in
      let (row_id, v, inserted, h₂) =
        >>=-eq-ok
          (on_sql_error (create_error conn) (statement (insert_user conn username hash role 1 0))) _
          s h₁ in
      let wrote = statement-eq-ok (insert_user conn username hash role 1 0) s (
        on_sql_error-eq-ok (create_error conn) (statement (insert_user conn username hash role 1 0))
          s inserted) in
      let (free, users, id) = insert_user-eq-done s.db v.db wrote in
      let h₃ = fallible_then row_id _ v h₂ in
      let made_of : ℕ → User =
        λ i. scan_user (record (user_row conn username hash role 1 0 s.db) { id = i }) in
      let made : ◌≡◌ {A = Result User} (ok (made_of row_id)) (ok u) =
        ap (λ (p : Result User × State). p.0) h₃ in
      let same : made_of row_id ≡ u = cc in
      record {
        free = free;
        users = ap (λ (p : Result User × State). p.1.db.users) (sym h₃) ∙ users;
        user = sym same ∙ ap made_of id;
      }

any-find : {A : Type 0} (p : A → Bool) (xs : List A) → any p xs ≡ false → find p xs ≡ none
any-find p [] h = refl
any-find p (x ∷ xs) h = ground (arith, any-find p xs)

unused-find :
    (id : ℕ) (rows : List UserRow)
    → contains id (map (λ (r : UserRow). r.id) rows) ≡ false
    → find (λ (r : UserRow). eqb r.id id) rows ≡ none
unused-find id [] h = refl
unused-find id (r ∷ rows) h = ground (arith, unused-find id rows)

-- A row at the end, behind rows that do not pass.
find-last :
    {A : Type 0} (p : A → Bool) (xs : List A) (y : A)
    → find p xs ≡ none
    → p y ≡ true
    → find p (xs ++ y ∷ []) ≡ some y
find-last p xs y h k = find-append p xs (y ∷ []) h ∙ rw k refl

module _ (v : State) (calm : is_due v.faults ≡ false) where
  pub by_username-found :
      (username : String) (r : UserRow)
      → find (λ (q : UserRow). q.username == username) v.db.users ≡ some r
      → by_username username v ≡ (ok (scan_user r), tick v)
  unfolding by_username query statement scan_user ◌>>=◌
  by_username-found username r found = rw (calm, found) refl

  pub by_id-found :
      (id : ℕ) (r : UserRow)
      → find (λ (q : UserRow). eqb q.id id) v.db.users ≡ some r
      → by_id id v ≡ (ok (scan_user r), tick v)
  unfolding by_id query statement scan_user ◌>>=◌
  by_id-found id r found = rw (calm, found) refl

-- A user whom CreateUser has returned is what ByUsername and ByID then return for the name and for the
-- id, on tables with the users that it left, when the driver does not fail the query.
pub create_user-found :
    (conn : Conn) (username hash role : String) (s : State) {u : User} {t : State} (v : State)
    → create_user conn username hash role s ≡ (ok u, t)
    → v.db.users ≡ t.db.users
    → is_due v.faults ≡ false
    → (by_username username v ≡ (ok u, tick v)) × (by_id u.id v ≡ (ok u, tick v))
unfolding scan_user
create_user-found conn username hash role s {u} {t} v h kept calm =
    let c = create_user-eq-ok conn username hash role s h in
    let row = user_row conn username hash role 1 0 s.db in
    let table = kept ∙ c.users in
    let is_named = λ (q : UserRow). q.username == username in
    let has_id = λ (q : UserRow). eqb q.id row.id in
    let named : is_named row ≡ true = ground (arith, eq_iff username username) in
    let numbered : has_id row ≡ true = ground arith in
    let by_name : find is_named v.db.users ≡ some row =
      ap (find is_named) table
      ∙ find-last is_named s.db.users row (any-find is_named s.db.users c.free) named in
    let by_number : find has_id v.db.users ≡ some row =
      ap (find has_id) table
      ∙ find-last has_id s.db.users row
          (unused-find row.id s.db.users (new_id conn (user_ids s.db))) numbered in
    let same_id : u.id ≡ row.id = ap (λ (x : User). x.id) c.user in
    let back : ◌≡◌ {A = Result User} (ok (scan_user row)) (ok u) = ap (λ x. ok x) (sym c.user) in
    (
      by_username-found v calm username row by_name ∙ (λ i. (back i, tick v)),
      ap (λ id. by_id id v) same_id
          ∙ by_id-found v calm row.id row by_number
          ∙ (λ i. (back i, tick v)),
    )
