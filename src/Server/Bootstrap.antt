-- ===== src/Server/Bootstrap.antt =====
-- The first admin, who is made once.
use nonprofit_ledger.Prelude.{
  ℕ, String, ◌≡◌, refl, true, false, ltb, leb, length, Option, none, some, List, [], ◌∷◌,
}
use nonprofit_ledger.Prelude.Sort.{take}
use nonprofit_ledger.Schema.{Db, UserRow}
use nonprofit_ledger.Exec.{Conn, State, ok, tick, is_due}
use nonprofit_ledger.Users.{user_row, role_check}
use nonprofit_ledger.Auth.Password.{Crypto, phc}
use nonprofit_ledger.Auth.Password.Roundtrip.{key}
use nonprofit_ledger.Server.{spell, bootstrap_first_admin}

-- Where there are users nothing is printed and no table is changed; the count of the users may fail.
pub bootstrap_skips :
    (conn : Conn) (crypto : Crypto) (random salt : Option (List ℕ)) (s : State)
    → ltb 0 (length s.db.users) ≡ true
    → is_due s.faults ≡ false
    → bootstrap_first_admin conn crypto random salt s ≡ (ok none, tick s)
unfolding bootstrap_first_admin
bootstrap_skips conn crypto random salt s filled calm = rw (calm, filled) refl

-- The row of the first admin.
abbrev pub admin_row : Conn → String → Db → UserRow
admin_row conn hash db = user_row conn "admin" hash "admin" 1 1 db

abbrev pub calm : Db → State
calm db = record { db = db; faults = [] }

-- The bytes of the first password: the first 20 that the source gives.
abbrev pub drawn : List ℕ → List ℕ
drawn source = take 20 source

module _ (conn : Conn) (crypto : Crypto) (random salt : List ℕ) (db : Db) where
  abbrev pub with_admin : Db
  with_admin = record db {
    users = admin_row conn (phc crypto salt (key crypto (spell (drawn random)) salt)) db ∷ [];
  }

  pub bootstrap-calm :
      leb 20 (length random) ≡ true
      → db.users ≡ []
      → bootstrap_first_admin conn crypto (some random) (some salt) (calm db)
        ≡ (ok (some ("admin", spell (drawn random))), calm with_admin)
  unfolding bootstrap_first_admin role_check
  bootstrap-calm enough none_yet = rw (none_yet, enough) refl
