-- ===== src/Api/Users.antt =====
-- server/api/users.go
pub mod Hired
use nonprofit_ledger.Prelude.{
  ℕ, ⊤, ◌+◌, ◌*◌, ◌-◌, ◌^◌, String, Bool, ◌&&◌, ◌||◌, eqb, leb, ltb, if◌then◌else◌, Option, none,
  some, List, [], ◌∷◌, ◌==◌, map,
}
use mathlib.Core.List.{reverse}
use nonprofit_ledger.Prelude.Text.{after_prefix, codes}
use nonprofit_ledger.Exec.{Conn, Result, ok, err, sql, no_rows, invalid_role, duplicate_username}
use nonprofit_ledger.Users.{User, create_user, list_users, update_role, deactivate}
use nonprofit_ledger.Auth.Session.{SessionManager}
use nonprofit_ledger.Auth.Middleware.{Web, Handler}
use nonprofit_ledger.Auth.Password.{Crypto, hash_password}
use nonprofit_ledger.Api.Http.{
  Request, CreateUserRequest, UpdateRoleRequest, Json, UserResponse, Response, user, users, reply,
  reply_error, status_ok,
}

unfoldable pub to_user_response : User → UserResponse
to_user_response u = record {
  id = u.id;
  username = u.username;
  role = u.role;
  active = u.active;
  must_change_password = u.must_change_password;
}

abbrev pub reversed_if : Option (List ℕ) → Option (List ℕ)
reversed_if none = none
reversed_if (some s) = some (reverse s)

-- What stands before a suffix.
abbrev pub before_suffix : List ℕ → List ℕ → Option (List ℕ)
before_suffix suffix s = reversed_if (after_prefix (reverse suffix) (reverse s))

abbrev pub or_self : Option (List ℕ) → List ℕ → List ℕ
or_self none s = s
or_self (some t) s = t

abbrev pub is_digit : ℕ → Bool
is_digit c = leb b'0' c && leb c b'9'

-- The digits of `strconv.ParseInt(s, 10, 64)`, all of them, onto what has been read.
abbrev pub parse_digits : ℕ → List ℕ → Option ℕ
parse_digits n [] = some n
parse_digits n (c ∷ s) =
    let rest = parse_digits (n * 10 + (c - b'0')) s in if is_digit c then rest else none

-- `ParseInt` followed by `id <= 0`: a minus sign, no digit, another character and a number past
-- int64 are all refused.
abbrev pub positive : Option ℕ → Option ℕ
positive none = none
positive (some n) = if ltb 0 n && ltb n (2 ^ 63) then some n else none

abbrev pub parse_unsigned : List ℕ → Option ℕ
parse_unsigned [] = none
parse_unsigned (c ∷ s) = positive (parse_digits 0 (c ∷ s))

abbrev pub parse_id : List ℕ → Option ℕ
parse_id [] = none
parse_id (c ∷ s) =
    if eqb c b'+' then parse_unsigned s else if eqb c b'-' then none else parse_unsigned (c ∷ s)

abbrev pub parse_trimmed : String → List ℕ → Option (List ℕ) → Option (List ℕ) → Option ℕ
parse_trimmed suffix path none before = none
parse_trimmed suffix path (some rest) none = none
parse_trimmed suffix path (some rest) (some before) =
    parse_id (or_self (before_suffix (codes suffix) rest) rest)

unfoldable pub parse_user_id_from_path : String → String → Option ℕ
parse_user_id_from_path path suffix =
    parse_trimmed suffix (codes path) (after_prefix (codes "/api/users/") (codes path))
      (before_suffix (codes suffix) (codes path))

module _ (sm : SessionManager) where
  abbrev pub list_reply : Result (List User) → Response
  list_reply (err e) = reply_error 500 "internal error"
  list_reply (ok list) = reply 200 (users (map to_user_response list))

  unfoldable pub list_users_handler : Handler sm Response
  unfolding list_users to_user_response
  list_users_handler cu w =
      let (r, state) = list_users w.state in (list_reply r, record w { state = state })

  abbrev pub create_reply : Result User → Response
  create_reply (ok u) = reply 201 (user (to_user_response u))
  create_reply (err invalid_role) = reply_error 400 "invalid role"
  create_reply (err duplicate_username) = reply_error 409 "username already exists"
  create_reply (err e) = reply_error 500 "internal error"

  -- The switch of `UpdateRoleHandler`, and the test of `DeactivateUserHandler`.
  abbrev pub update_reply : Result ⊤ → Response
  update_reply (ok u) = reply 200 status_ok
  update_reply (err invalid_role) = reply_error 400 "invalid role"
  update_reply (err (sql no_rows)) = reply_error 404 "user not found"
  update_reply (err e) = reply_error 500 "internal error"

  abbrev pub deactivate_reply : Result ⊤ → Response
  deactivate_reply (ok u) = reply 200 status_ok
  deactivate_reply (err (sql no_rows)) = reply_error 404 "user not found"
  deactivate_reply (err e) = reply_error 500 "internal error"

  module _ (conn : Conn) (json : Json) (crypto : Crypto) where
    abbrev pub create_hashed : CreateUserRequest → Result String → Web sm → Response × Web sm
    create_hashed req (err e) w = (reply_error 500 "internal error", w)
    create_hashed req (ok hash) w =
        let (r, state) = create_user conn req.username hash req.role w.state in
        (create_reply r, record w { state = state })

    abbrev pub create_decoded :
        Option (List ℕ) → Option CreateUserRequest → Web sm → Response × Web sm
    create_decoded salt none w = (reply_error 400 "invalid request body", w)
    create_decoded salt (some req) w =
        if req.username == "" || (req.password == "" || req.role == "")
        then (reply_error 400 "username, password, and role are required", w)
        else create_hashed req (hash_password crypto salt req.password) w

    -- Over the salt that the random source gives for the new password.
    unfoldable pub create_user_handler : Option (List ℕ) → Request → Handler sm Response
    unfolding create_user hash_password to_user_response
    create_user_handler salt r cu w = create_decoded salt (json.create_user r.body) w

  module _ (json : Json) where
    abbrev pub update_decoded : ℕ → Option UpdateRoleRequest → Web sm → Response × Web sm
    update_decoded id none w = (reply_error 400 "invalid request body", w)
    update_decoded id (some req) w =
        let (r, state) = update_role id req.role w.state in
        (update_reply r, record w { state = state })

    abbrev pub update_of : Option ℕ → Request → Web sm → Response × Web sm
    update_of none r w = (reply_error 400 "invalid user id", w)
    update_of (some id) r w = update_decoded id (json.update_role r.body) w

    unfoldable pub update_role_handler : Request → Handler sm Response
    unfolding update_role parse_user_id_from_path
    update_role_handler r cu w = update_of (parse_user_id_from_path r.path "/role") r w

  abbrev pub deactivate_of : Option ℕ → Web sm → Response × Web sm
  deactivate_of none w = (reply_error 400 "invalid user id", w)
  deactivate_of (some id) w =
      let (r, state) = deactivate id w.state in (deactivate_reply r, record w { state = state })

  unfoldable pub deactivate_user_handler : Request → Handler sm Response
  unfolding deactivate parse_user_id_from_path
  deactivate_user_handler r cu w = deactivate_of (parse_user_id_from_path r.path "/deactivate") w
