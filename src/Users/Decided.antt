-- ===== src/Users/Decided.antt =====
-- Which writes of users are taken, what they come to, and how the others are refused.
use nonprofit_ledger.Prelude.{
  ℕ, ⊤, String, ◌≡◌, refl, ap, true, false, not, any, inl, inr, Bool-cases, eqb, contains, select,
  length, if◌then◌else◌, List, [], ◌∷◌, ◌++◌, ◌==◌, map, arith,
}
use nonprofit_ledger.Schema.{Db, UserRow, user_ids}
use nonprofit_ledger.Exec.{
  Conn, State, Exec, Result, raise_if, ok, err, sql, no_rows, unique_failed, invalid_role,
  statement, fallible, on_sql_error, ◌>>=◌,
}
use nonprofit_ledger.Ledger.Accounts.Decided.{calm}
use nonprofit_ledger.Users.Roles.{known_role, set_role_lem}
use nonprofit_ledger.Users.{
  User, valid_role, scan_user, create_error, user_row, insert_user, create_user, update_users,
  with_role, inactive, update_role, deactivate,
}

-- The users with one of them changed.
abbrev pub with_changed : (UserRow → UserRow) → ℕ → Db → Db
with_changed f user_id db = record db {
  users = map (λ (r : UserRow). if eqb r.id user_id then f r else r) db.users;
}

missing-unchanged :
    (f : UserRow → UserRow) (user_id : ℕ) (rows : List UserRow)
    → contains user_id (map (λ (r : UserRow). r.id) rows) ≡ false
    → map (λ (r : UserRow). if eqb r.id user_id then f r else r) rows ≡ rows
missing-unchanged f user_id [] h = refl
missing-unchanged f user_id (r ∷ rows) h = ground (arith, missing-unchanged f user_id rows)

missing-select :
    (user_id : ℕ) (rows : List UserRow)
    → contains user_id (map (λ (r : UserRow). r.id) rows) ≡ false
    → select (λ (r : UserRow). eqb r.id user_id) rows ≡ []
missing-select user_id [] h = refl
missing-select user_id (r ∷ rows) h = ground (arith, missing-select user_id rows)

there-select :
    (user_id : ℕ) (rows : List UserRow)
    → contains user_id (map (λ (r : UserRow). r.id) rows) ≡ true
    → eqb (length (select (λ (r : UserRow). eqb r.id user_id) rows)) 0 ≡ false
there-select user_id [] h = cc
there-select user_id (r ∷ rows) h = ground (arith, there-select user_id rows)

-- The update, and the test of the number of rows.
abbrev updating : (UserRow → UserRow) → ℕ → Exec ⊤
updating f user_id = statement (update_users f user_id) >>= λ affected.
    fallible affected >>= λ n. raise_if (eqb n 0) (sql no_rows)

-- What an update of one user comes to.
abbrev pub changing : (UserRow → UserRow) → ℕ → Db → Result ⊤ × State
changing f user_id db =
    if contains user_id (user_ids db)
    then (ok tt, calm (with_changed f user_id db))
    else (err (sql no_rows), calm db)

-- What a creation comes to.
abbrev pub creating : Conn → String → String → String → Db → Result User × State
creating conn username hash role db =
    let row = user_row conn username hash role 1 0 db in
    if not (valid_role role)
    then (err invalid_role, calm db)
    else if any (λ (r : UserRow). r.username == username) db.users
    then (err (create_error conn unique_failed), calm db)
    else (ok (scan_user row), calm (record db { users = db.users ++ row ∷ [] }))

updating-calm :
    (f : UserRow → UserRow) (user_id : ℕ) (db : Db)
    → updating f user_id (calm db) ≡ changing f user_id db
unfolding update_users statement fallible ◌>>=◌
updating-calm f user_id db = elim (Bool-cases (contains user_id (user_ids db))) [
  | inl there ↦ rw (there, there-select user_id db.users there) refl
  | inr missing ↦
      rw (missing, missing-select user_id db.users missing)
        (ap (λ rows. (err (sql no_rows), calm (record db { users = rows })))
          (missing-unchanged f user_id db.users missing))
]

-- The Go code's roles are those of the CHECK clause.
create_user-calm :
    (conn : Conn) (username hash role : String) (db : Db)
    → create_user conn username hash role (calm db) ≡ creating conn username hash role db
unfolding create_user insert_user scan_user statement fallible on_sql_error ◌>>=◌
create_user-calm conn username hash role db = elim (Bool-cases (valid_role role)) [
  | inr unknown ↦ rw unknown refl
  | inl known ↦ elim (Bool-cases (any (λ (r : UserRow). r.username == username) db.users)) [
    | inl taken ↦ rw (known, known_role role known, taken) refl
    | inr free ↦ rw (known, known_role role known, free) refl
  ]
]

update_role-calm :
    (user_id : ℕ) (role : String) (db : Db)
    → update_role user_id role (calm db) ≡ (
        if valid_role role
        then changing (with_role role) user_id db
        else (err invalid_role, calm db))
unfolding update_role
update_role-calm user_id role db = elim (Bool-cases (valid_role role)) [
  | inr unknown ↦ rw unknown refl
  | inl known ↦
      rw (known, set_role_lem role user_id db known) (updating-calm (with_role role) user_id db)
]

-- On a connection that fails no call: CreateUser refuses a role that is none of the three and a
-- name that is taken, with the error that the driver's text makes of it, and otherwise adds one
-- active user at the end of the table, whom it returns; UpdateRole refuses such a role, and an id
-- that is not there as no row; Deactivate refuses such an id; otherwise they change the user of
-- that id only. What is refused changes no table.
pub users-decide :
    (conn : Conn) (username hash role : String) (user_id : ℕ) (db : Db)
    → (create_user conn username hash role (calm db) ≡ creating conn username hash role db)
      × (update_role user_id role (calm db) ≡ (
          if valid_role role
          then changing (with_role role) user_id db
          else (err invalid_role, calm db)))
      × (deactivate user_id (calm db) ≡ changing inactive user_id db)
unfolding deactivate
users-decide conn username hash role user_id db = (
  create_user-calm conn username hash role db,
  update_role-calm user_id role db,
  updating-calm inactive user_id db,
)
