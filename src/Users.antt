-- ===== src/Users.antt =====
-- server/users/users.go
pub mod Created
pub mod Roles
pub mod Updated
pub mod Decided
use text.Mathlib.Text.{find? as text_find?}
use nonprofit_ledger.Prelude.{
  ℕ, ⊤, String, Bool, true, false, ◌&&◌, ◌||◌, not, any, eqb, find, select, length, if◌then◌else◌,
  Option, none, some, List, [], ◌∷◌, ◌++◌, ◌==◌, map,
}
use nonprofit_ledger.Schema.{Db, UserRow, user_ids}
use nonprofit_ledger.Exec.{
  Conn, Exec, Outcome, done, fail, SqlError, unique_failed, check_failed, no_rows, Error, sql,
  invalid_role, duplicate_username, pure, raise_if, or_raise, statement, query, fallible,
  on_sql_error, ◌>>=◌, ◌>>◌,
}

pub record User : Type 0 where
  pub id : ℕ
  pub username : String
  pub password_hash : String
  pub role : String
  pub active : Bool
  pub must_change_password : Bool

-- The keys of `validRoles`.
unfoldable pub valid_role : String → Bool
valid_role r = r == "staff_bookkeeper" || (r == "admin" || r == "external_accountant")

-- CHECK (role IN (...)) of migration 0005
unfoldable pub role_check : String → Bool
role_check r = r == "staff_bookkeeper" || (r == "admin" || r == "external_accountant")

-- `x != 0`
abbrev pub is_set : ℕ → Bool
is_set n = not (eqb n 0)

unfoldable pub scan_user : UserRow → User
scan_user r = record {
  id = r.id;
  username = r.username;
  password_hash = r.password_hash;
  role = r.role;
  active = is_set r.active;
  must_change_password = is_set r.must_change_password;
}

abbrev pub scanned : Option UserRow → Option User
scanned none = none
scanned (some r) = some (scan_user r)

unfoldable pub by_username : String → Exec User
unfolding query scan_user ◌>>=◌
by_username username = do
  row ← query (λ db. find (λ (r : UserRow). r.username == username) db.users)
  or_raise (scanned row) (sql no_rows)

unfoldable pub by_id : ℕ → Exec User
unfolding query scan_user ◌>>=◌
by_id id = do
  row ← query (λ db. find (λ (r : UserRow). eqb r.id id) db.users)
  or_raise (scanned row) (sql no_rows)

-- `strings.Contains`
abbrev pub contains_text : String → String → Bool
contains_text s sub = elim (text_find? s sub) [ none ↦ false | some _ ↦ true ]

unfoldable pub is_unique_constraint_err : String → Bool
is_unique_constraint_err message =
    contains_text message "UNIQUE constraint failed"
    || contains_text message "constraint failed: UNIQUE"

-- The error that `CreateUser` makes of the driver's.
abbrev pub create_error : Conn → SqlError → Error
create_error conn e =
    if is_unique_constraint_err (conn.message e) then duplicate_username else sql e

module _ (conn : Conn) where
  abbrev pub user_row : String → String → String → ℕ → ℕ → Db → UserRow
  user_row username password_hash role active must_change_password db = record {
    id = conn.row_id (user_ids db);
    username = username;
    password_hash = password_hash;
    role = role;
    active = active;
    must_change_password = must_change_password;
    created_at = conn.datetime_now;
  }

  -- INSERT INTO users
  unfoldable pub insert_user : String → String → String → ℕ → ℕ → Db → Outcome ℕ
  unfolding role_check
  insert_user username password_hash role active must_change_password db =
      let row = user_row username password_hash role active must_change_password db in
      if not (role_check role)
      then fail check_failed
      else if any (λ (r : UserRow). r.username == username) db.users
      then fail unique_failed
      else done row.id (record db { users = db.users ++ row ∷ [] })

  unfoldable pub create_user : String → String → String → Exec User
  unfolding valid_role insert_user statement fallible on_sql_error is_unique_constraint_err ◌>>=◌
  create_user username password_hash role = do
    raise_if (not (valid_role role)) invalid_role
    row_id ←
        on_sql_error (create_error conn) (statement (insert_user username password_hash role 1 0))
    id ← fallible row_id
    pure (record {
      id = id;
      username = username;
      password_hash = password_hash;
      role = role;
      active = true;
      must_change_password = false;
    })

unfoldable pub list_users : Exec (List User)
unfolding query scan_user
list_users = query (λ db. map scan_user db.users)

-- UPDATE users SET ... WHERE id = ?, with the number of rows that it affects
unfoldable pub update_users : (UserRow → UserRow) → ℕ → Db → Outcome ℕ
update_users f id db =
    done (length (select (λ (r : UserRow). eqb r.id id) db.users))
      (record db { users = map (λ (r : UserRow). if eqb r.id id then f r else r) db.users })

abbrev pub with_role : String → UserRow → UserRow
with_role role r = record r { role = role }

abbrev pub inactive : UserRow → UserRow
inactive r = record r { active = 0 }

-- UPDATE users SET role = ? WHERE id = ?, under the CHECK on the role of the rows that it changes
unfoldable pub set_role : String → ℕ → Db → Outcome ℕ
unfolding role_check update_users
set_role role id db =
    if not (role_check role) && any (λ (r : UserRow). eqb r.id id) db.users
    then fail check_failed
    else update_users (with_role role) id db

unfoldable pub update_role : ℕ → String → Exec ⊤
unfolding valid_role statement set_role fallible ◌>>=◌
update_role user_id new_role = do
  raise_if (not (valid_role new_role)) invalid_role
  affected ← statement (set_role new_role user_id)
  n ← fallible affected
  raise_if (eqb n 0) (sql no_rows)

unfoldable pub deactivate : ℕ → Exec ⊤
unfolding statement update_users fallible ◌>>=◌
deactivate user_id = do
  affected ← statement (update_users inactive user_id)
  n ← fallible affected
  raise_if (eqb n 0) (sql no_rows)
