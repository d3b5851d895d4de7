-- ===== src/Auth/Password.antt =====
-- server/auth/password.go
pub mod Roundtrip
use Prim.Native.String
use nonprofit_ledger.Prelude.{
  ℕ, String, Bool, true, false, eqb, length, if◌then◌else◌, Option, none, some, List, [], ◌∷◌, ◌==◌,
}
use nonprofit_ledger.Prelude.Int.{ℤ, pos, eqb_ℤ}
use nonprofit_ledger.Prelude.Text.{codes, split}
use nonprofit_ledger.Exec.{Result, ok, err, random_failed}

-- What is called of golang.org/x/crypto/argon2, encoding/base64 and fmt; bytes are numbers.
pub record Crypto : Type 0 where
  pub id_key : List ℕ → List ℕ → ℕ → ℕ → ℕ → ℕ → List ℕ
  pub encode : List ℕ → String
  pub decode : String → Option (List ℕ)
  pub decimal : ℕ → String
  pub scan_version : String → Option ℤ
  pub scan_parameters : String → Option (ℕ × ℕ × ℕ)

abbrev pub argon_time : ℕ
argon_time = 2

abbrev pub argon_memory : ℕ
argon_memory = 19456

abbrev pub argon_threads : ℕ
argon_threads = 1

abbrev pub argon_key_len : ℕ
argon_key_len = 32

-- argon2.Version
abbrev pub argon_version : ℕ
argon_version = 19

infixr 66 ◌<>◌
abbrev pub ◌<>◌ : String → String → String
◌<>◌ = String.◌++◌

-- `subtle.ConstantTimeCompare(...) == 1`
abbrev pub bytes_eq : List ℕ → List ℕ → Bool
bytes_eq [] [] = true
bytes_eq [] (y ∷ ys) = false
bytes_eq (x ∷ xs) [] = false
bytes_eq (x ∷ xs) (y ∷ ys) = if eqb x y then bytes_eq xs ys else false

module _ (crypto : Crypto) where
  abbrev pub phc : List ℕ → List ℕ → String
  phc salt hash =
      "$argon2id$v="
      <> crypto.decimal argon_version
      <> "$m="
      <> crypto.decimal argon_memory
      <> ",t="
      <> crypto.decimal argon_time
      <> ",p="
      <> crypto.decimal argon_threads
      <> "$"
      <> crypto.encode salt
      <> "$"
      <> crypto.encode hash

  -- Over the bytes that `rand.Read` gave for the salt, if it did.
  unfoldable pub hash_password : Option (List ℕ) → String → Result String
  hash_password none password = err random_failed
  hash_password (some salt) password = ok (
      phc salt
        (crypto.id_key (codes password) salt argon_time argon_memory argon_threads argon_key_len))

  abbrev pub compare_hash : String → ℕ × ℕ × ℕ → Option (List ℕ) → Option (List ℕ) → Bool
  compare_hash password p none expected = false
  compare_hash password p (some salt) none = false
  compare_hash password (memory, time, threads) (some salt) (some expected) =
      bytes_eq expected (crypto.id_key (codes password) salt time memory threads (length expected))

  abbrev pub verify_parameters : String → Option (ℕ × ℕ × ℕ) → String → String → Bool
  verify_parameters password none salt hash = false
  verify_parameters password (some p) salt hash =
      compare_hash password p (crypto.decode salt) (crypto.decode hash)

  abbrev pub is_version : Option ℤ → Bool
  is_version none = false
  is_version (some v) = eqb_ℤ v (pos argon_version)

  abbrev pub verify_parts : List String → String → Bool
  verify_parts (empty ∷ name ∷ version ∷ parameters ∷ salt ∷ hash ∷ []) password =
      if name == "argon2id"
      then if is_version (crypto.scan_version version)
        then verify_parameters password (crypto.scan_parameters parameters) salt hash
        else false
      else false
  verify_parts _ password = false

  unfoldable pub verify_password : String → String → Bool
  verify_password encoded_hash password = verify_parts (split b'$' encoded_hash) password
