-- ===== src/Tests/Server.antt =====
-- The first start of the server, and passwords.
use nonprofit_ledger.Prelude.{zero, suc, ℕ, String, ◌≡◌, refl, none, some, List, [], ◌∷◌}
use nonprofit_ledger.Prelude.Int.{pos}
use nonprofit_ledger.Auth.Password.{Crypto}
use nonprofit_ledger.Auth.Password.Roundtrip.{ReadsBack}
use nonprofit_ledger.Api.Http.{Request, Json}
use nonprofit_ledger.Server.{spell}
use nonprofit_ledger.Server.Bootstrap.{drawn}

abbrev pub ones : ℕ → List ℕ
ones zero = []
ones (suc n) = 1 ∷ ones n

-- Every key is 32 ones, which every text decodes to.
abbrev pub sample_crypto : Crypto
sample_crypto = record {
  id_key = λ password salt time memory threads length. ones 32;
  encode = λ bytes. "ones";
  decode = λ text. some (ones 32);
  decimal = λ n. "number";
  scan_version = λ text. some (pos 19);
  scan_parameters = λ text. some (19456, 2, 1);
}

pub reads_back : (password : String) → ReadsBack sample_crypto password (ones 32)
reads_back password = record {
  version = refl;
  parameters = refl;
  salt_back = refl;
  key_back = refl;
  key_length = refl;
  plain_digits = λ n. record { plain = refl };
  plain_text = λ bytes. record { plain = refl };
}

-- Numbers past the end of the alphabet wrap around.
spell-bytes : spell (0 ∷ 57 ∷ 255 ∷ 24 ∷ []) ≡ "aaCz"
unfolding spell
spell-bytes = refl

abbrev pub random : List ℕ
random = 0 ∷ 57 ∷ 255 ∷ 24 ∷ ones 17

abbrev pub json : Json
json = record {
  login = λ b. some (record { username = "admin"; password = spell (drawn random) });
  create_user = λ b. none;
  update_role = λ b. none;
  lock_period = λ b. none;
  post_journal_entry = λ b. none;
}

abbrev pub log_in : Request
log_in = record { method = "POST"; path = "/api/auth/login"; body = "" }
