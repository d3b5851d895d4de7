-- ===== src/Ledger/Accounts/Decided.antt =====
-- Which new accounts CreateAccount takes.
use nonprofit_ledger.Prelude.{
  ℕ, String, ◌≡◌, ◌⊎◌, refl, Bool, true, false, ◌&&◌, not, any, contains, inl, inr, Bool-cases,
  if◌then◌else◌, Option, none, some, [], ◌∷◌, ◌++◌, ◌==◌,
}
use nonprofit_ledger.Schema.{Db, AccountRow, account_ids}
use nonprofit_ledger.Exec.{
  Conn, State, ok, err, Error, sql, unique_failed, code_required, invalid_type, parent_missing,
  query, statement, fallible, ◌>>=◌,
}
use nonprofit_ledger.Ledger.Accounts.{
  NewAccount, valid_account_type, account_type_check, parent_reference, check_parent, account_row,
  create_account,
}

abbrev pub calm : Db → State
calm db = record { db = db; faults = [] }

-- A code that no account has, one of the five types, and a parent that is there, if one is given.
abbrev pub is_acceptable : NewAccount → Db → Bool
is_acceptable a db =
    not (a.code == "")
    && (valid_account_type a.type
        && (parent_reference a.parent_id db
            && not (any (λ (r : AccountRow). r.code == a.code) db.accounts)))

check_parent-calm :
    (parent_id : Option ℕ) (db : Db)
    → check_parent parent_id (calm db)
      ≡ (if parent_reference parent_id db then ok tt else err parent_missing, calm db)
unfolding check_parent query statement ◌>>=◌
check_parent-calm none db = refl
check_parent-calm (some parent) db = elim (Bool-cases (contains parent (account_ids db))) [
  | inl there ↦ rw there refl
  | inr missing ↦ rw missing refl
]

-- The Go code's types are those of the CHECK clause.
known_type : (type : String) → valid_account_type type ≡ true → account_type_check type ≡ true
unfolding valid_account_type account_type_check
known_type type h = h

-- On a connection that fails no call, CreateAccount takes an account exactly when its code is not empty
-- and new, its type is one of the five, and its parent, if it has one, is there; then it returns the
-- next id and adds one row at the end of the table, and otherwise it returns an error and changes no
-- table. It makes no difference whether the connection enforces foreign keys.
pub create_account-decides :
    (conn : Conn) (a : NewAccount) (db : Db)
    → ((is_acceptable a db ≡ true)
        × (create_account conn a (calm db) ≡ (
          ok (conn.row_id (account_ids db)),
          calm (record db { accounts = db.accounts ++ account_row conn a db ∷ [] }),
        )))
      ⊎ ((is_acceptable a db ≡ false)
          × (e : Error) × (create_account conn a (calm db) ≡ (err e, calm db)))
unfolding create_account statement fallible ◌>>=◌
create_account-decides conn a db = elim (Bool-cases (a.code == "")) [
  | inl blank ↦ inr (rw blank (refl, code_required, refl))
  | inr given ↦ elim (Bool-cases (valid_account_type a.type)) [
    | inr unknown ↦ inr (rw (given, unknown) (refl, invalid_type, refl))
    | inl known ↦ elim (Bool-cases (parent_reference a.parent_id db)) [
      | inr missing ↦ inr (
          rw (given, known, check_parent-calm a.parent_id db, missing) (refl, parent_missing, refl))
      | inl there ↦
          let checked = known_type a.type known in
          let parent = check_parent-calm a.parent_id db in
          elim (Bool-cases (any (λ (r : AccountRow). r.code == a.code) db.accounts)) [
            | inl taken ↦
                inr
                  (rw (given, known, parent, there, checked, taken) (refl, sql unique_failed, refl))
            | inr free ↦ elim (Bool-cases conn.foreign_keys) [
              | inl enforced ↦
                  inl
                    (rw (given, known, parent, there, checked, free, enforced, there) (refl, refl))
              | inr lax ↦ inl (rw (given, known, parent, there, checked, free, lax) (refl, refl))
            ]
          ]
    ]
  ]
]
