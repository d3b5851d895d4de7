-- ===== src/Auth/Password/Roundtrip.antt =====
-- A password verifies against the hash that was made of it.
use text.Mathlib.TextLemmas.{nil-append, cons-append, append_assoc as text_assoc}
use nonprofit_ledger.Prelude.{
  ℕ, String, ◌≡◌, refl, ◌∙◌, ap, true, false, contains, length, some, List, [], ◌∷◌, arith,
}
use nonprofit_ledger.Prelude.Int.{pos}
use nonprofit_ledger.Prelude.Text.{codes, split}
use nonprofit_ledger.Auth.Password.{
  Crypto, ◌<>◌, argon_time, argon_memory, argon_threads, argon_key_len, argon_version, bytes_eq,
  phc, verify_password,
}

dollar : (rest : String) → "$" <> rest ≡ String.◌∷◌ "$" rest
dollar rest = cons-append "$" "" rest ∙ ap (String.◌∷◌ "$") (nil-append rest)

-- A field without the separator, up to the separator.
split-field :
    (a rest : String)
    → contains b'$' (codes a) ≡ false
    → split b'$' (a <> ("$" <> rest)) ≡ a ∷ split b'$' rest
split-field String.[] rest h = ap (split b'$') (nil-append ("$" <> rest) ∙ dollar rest)
split-field (String.◌∷◌ c a) rest h =
    ap (split b'$') (cons-append c a ("$" <> rest)) ∙ ground (arith, split-field a rest)

split-last : (a : String) → contains b'$' (codes a) ≡ false → split b'$' a ≡ a ∷ []
split-last String.[] h = refl
split-last (String.◌∷◌ c a) h = ground (arith, split-last a)

contains-text_append :
    (n : ℕ) (a b : String)
    → contains n (codes a) ≡ false
    → contains n (codes b) ≡ false
    → contains n (codes (a <> b)) ≡ false
contains-text_append n String.[] b h k = ap (λ t. contains n (codes t)) (nil-append b) ∙ k
contains-text_append n (String.◌∷◌ c a) b h k =
    ap (λ t. contains n (codes t)) (cons-append c a b) ∙ ground (arith, contains-text_append n a b)

-- A text without the separator of the fields.
pub record IsPlain (text : String) : Type 0 where
  pub plain : contains b'$' (codes text) ≡ false

split-field_then :
    (a rest : String) {fields : List String}
    → IsPlain a
    → split b'$' rest ≡ fields
    → split b'$' (a <> ("$" <> rest)) ≡ a ∷ fields
split-field_then a rest p e = split-field a rest p.plain ∙ ap (λ m. a ∷ m) e

IsPlain-append : {a b : String} → IsPlain a → IsPlain b → IsPlain (a <> b)
IsPlain-append {a} {b} p q = record { plain = contains-text_append b'$' a b p.plain q.plain }

bytes_eq_refl : (xs : List ℕ) → bytes_eq xs xs ≡ true
bytes_eq_refl [] = refl
bytes_eq_refl (x ∷ xs) = ground (arith, bytes_eq_refl xs)

module _ (crypto : Crypto) where
  abbrev pub key : String → List ℕ → List ℕ
  key password salt =
      crypto.id_key (codes password) salt argon_time argon_memory argon_threads argon_key_len

  abbrev pub version_text : String
  version_text = "v=" <> crypto.decimal argon_version

  abbrev pub parameters_text : String
  parameters_text =
      "m="
      <> crypto.decimal argon_memory
      <> ",t="
      <> crypto.decimal argon_time
      <> ",p="
      <> crypto.decimal argon_threads

  -- What the encodings promise of the bytes of a salt and of the hash that is made with it, and of the
  -- parameters: they read back, and no `$` is in them. The hash is as long as was asked for.
  pub record ReadsBack (password : String) (salt : List ℕ) : Type 0 where
    pub version : crypto.scan_version version_text ≡ some (pos argon_version)
    pub parameters :
        crypto.scan_parameters parameters_text ≡ some (argon_memory, argon_time, argon_threads)
    pub salt_back : crypto.decode (crypto.encode salt) ≡ some salt
    pub key_back : crypto.decode (crypto.encode (key password salt)) ≡ some (key password salt)
    pub key_length : length (key password salt) ≡ argon_key_len
    pub plain_digits : (n : ℕ) → IsPlain (crypto.decimal n)
    pub plain_text : (bytes : List ℕ) → IsPlain (crypto.encode bytes)

  regroup :
      (salt hash : List ℕ)
      → phc crypto salt hash
        ≡ ""
          <> ("$"
              <> ("argon2id"
                  <> ("$"
                      <> (version_text
                          <> ("$"
                              <> (parameters_text
                                  <> ("$"
                                      <> (crypto.encode salt <> ("$" <> crypto.encode hash)))))))))
  regroup salt hash =
      let split_up : phc crypto salt hash
          ≡ ("" <> ("$" <> ("argon2id" <> ("$" <> "v="))))
            <> (crypto.decimal argon_version
                <> (("$" <> "m=")
                    <> (crypto.decimal argon_memory
                        <> (",t="
                            <> (crypto.decimal argon_time
                                <> (",p="
                                    <> (crypto.decimal argon_threads
                                        <> ("$"
                                            <> (crypto.encode salt
                                                <> ("$" <> crypto.encode hash)))))))))) =
        refl in
      split_up ∙ simp text_assoc

  IsPlain-parameters :
      (password : String) (salt : List ℕ) → ReadsBack password salt → IsPlain parameters_text
  IsPlain-parameters password salt b =
      IsPlain-append (record { plain = refl })
        (IsPlain-append (b.plain_digits argon_memory) (
          IsPlain-append (record { plain = refl })
            (IsPlain-append (b.plain_digits argon_time)
              (IsPlain-append (record { plain = refl }) (b.plain_digits argon_threads)))))

  IsPlain-version :
      (password : String) (salt : List ℕ) → ReadsBack password salt → IsPlain version_text
  IsPlain-version password salt b =
      IsPlain-append (record { plain = refl }) (b.plain_digits argon_version)

  split-phc :
      (password : String) (salt : List ℕ)
      → ReadsBack password salt
      → split b'$' (phc crypto salt (key password salt))
        ≡ ""
          ∷ "argon2id"
          ∷ version_text
          ∷ parameters_text
          ∷ crypto.encode salt
          ∷ crypto.encode (key password salt)
          ∷ []
  split-phc password salt b =
      let hash = crypto.encode (key password salt) in
      let salt_on = crypto.encode salt <> ("$" <> hash) in
      let parameters_on = parameters_text <> ("$" <> salt_on) in
      let version_on = version_text <> ("$" <> parameters_on) in
      let e₅ = split-last hash (b.plain_text (key password salt)).plain in
      let e₄ = split-field_then (crypto.encode salt) hash (b.plain_text salt) e₅ in
      let e₃ = split-field_then parameters_text salt_on (IsPlain-parameters password salt b) e₄ in
      let e₂ = split-field_then version_text parameters_on (IsPlain-version password salt b) e₃ in
      let e₁ = split-field_then "argon2id" version_on (record { plain = refl }) e₂ in
      ap (split b'$') (regroup salt (key password salt))
      ∙ split-field_then "" ("argon2id" <> ("$" <> version_on)) (record { plain = refl }) e₁

  pub verify-phc :
      (password : String) (salt : List ℕ)
      → ReadsBack password salt
      → verify_password crypto (phc crypto salt (key password salt)) password ≡ true
  unfolding verify_password
  verify-phc password salt b =
      rw (split-phc password salt b, b.version, b.parameters, b.salt_back, b.key_back, b.key_length)
        (bytes_eq_refl (key password salt))
