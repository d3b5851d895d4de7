-- ===== src/Users/Roles.antt =====
-- The role that UpdateRole writes, which it has compared before.
use nonprofit_ledger.Prelude.{ℕ, String, ◌≡◌, refl, true}
use nonprofit_ledger.Schema.{Db}
use nonprofit_ledger.Users.{valid_role, role_check, update_users, with_role, set_role}

pub known_role : (role : String) → valid_role role ≡ true → role_check role ≡ true
unfolding valid_role role_check
known_role role h = h

-- The CHECK holds of a valid role.
pub set_role_lem :
    (role : String) (id : ℕ) (db : Db)
    → valid_role role ≡ true
    → set_role role id db ≡ update_users (with_role role) id db
unfolding set_role
set_role_lem role id db valid = rw (known_role role valid) refl

pub set_role-valid :
    (role : String) (id : ℕ)
    → valid_role role ≡ true
    → set_role role id ≡ update_users (with_role role) id
set_role-valid role id valid = λ i db. set_role_lem role id db valid i
