-- ===== src/Api/Users/Hired.antt =====
-- A user who is made through POST /api/users, and who then logs in.
use nonprofit_ledger.Prelude.{
  ℕ, String, ◌≡◌, refl, sym, ◌∙◌, ap, Bool, true, false, ◌||◌, if◌then◌else◌, Option, some, List,
  ◌==◌, arith,
}
use nonprofit_ledger.Exec.{Conn, State, Result, ok, err, tick, is_due}
use nonprofit_ledger.Users.{User, scan_user, create_user}
use nonprofit_ledger.Users.Created.{create_user-eq-ok, create_user-found}
use nonprofit_ledger.Auth.Session.{SessionManager}
use nonprofit_ledger.Auth.Middleware.{CurrentUser, Web}
use nonprofit_ledger.Auth.Password.{Crypto, phc, hash_password, verify_password}
use nonprofit_ledger.Auth.Password.Roundtrip.{ReadsBack, key, verify-phc}
use nonprofit_ledger.Api.Http.{
  Request, CreateUserRequest, Json, UserResponse, Response, user, reply, reply_error, status_ok,
}
use nonprofit_ledger.Api.Users.{to_user_response, create_reply, create_hashed, create_user_handler}
use nonprofit_ledger.Api.Session.{login_handler}

module _ (sm : SessionManager) (conn : Conn) (json : Json) (crypto : Crypto) where
  -- An answer 201 comes from a creation that returned the user.
  create_reply-eq-created :
      (result : Result User × State) (w : Web sm) {u : UserResponse} {w' : Web sm}
      → ◌≡◌ {A = Response × Web sm}
          (create_reply sm result.0, record w { state = result.1 })
          (reply 201 (user u), w')
      → (made : User) × (result.0 ≡ ok made) × (to_user_response made ≡ u) × (result.1 ≡ w'.state)
  create_reply-eq-created (ok made, t) w h = (
    made,
    refl,
    let bodies = ap (λ (p : Response × Web sm). p.0.body) h in cc,
    ap (λ (p : Response × Web sm). p.1.state) h,
  )
  create_reply-eq-created (err e, t) w h =
      let status = ap (λ (p : Response × Web sm). p.0.status) h in absurd (ground arith)

  decoded-eq-created :
      (blank : Bool) (hashed : Result String) (w : Web sm) (req : CreateUserRequest)
      {u : UserResponse} {w' : Web sm}
      → ◌≡◌ {A = Response × Web sm}
          (if blank
            then (reply_error 400 "username, password, and role are required", w)
            else create_hashed sm conn json crypto req hashed w)
          (reply 201 (user u), w')
      → (hash : String) × (made : User) × (hashed ≡ ok hash)
        × (create_user conn req.username hash req.role w.state ≡ (ok made, w'.state))
        × (to_user_response made ≡ u)
  decoded-eq-created true hashed w req h =
      let status = ap (λ (p : Response × Web sm). p.0.status) h in absurd (ground arith)
  decoded-eq-created false (err e) w req h =
      let status = ap (λ (p : Response × Web sm). p.0.status) h in absurd (ground arith)
  decoded-eq-created false (ok hash) w req {u} {w'} h =
      let (made, returned, answered, left) =
        create_reply-eq-created (create_user conn req.username hash req.role w.state) w {u = u}
          {w' = w'} h in
      (hash, made, refl, (λ i. (returned i, left i)), answered)

  create_user_handler-eq-created :
      (salt : Option (List ℕ)) (r : Request) (cu : Option CurrentUser) (w : Web sm)
      {req : CreateUserRequest} {u : UserResponse} {w' : Web sm}
      → json.create_user r.body ≡ some req
      → create_user_handler sm conn json crypto salt r cu w ≡ (reply 201 (user u), w')
      → (hash : String) × (made : User) × (hash_password crypto salt req.password ≡ ok hash)
        × (create_user conn req.username hash req.role w.state ≡ (ok made, w'.state))
        × (to_user_response made ≡ u)
  unfolding create_user_handler
  create_user_handler-eq-created salt r cu w {req} {u} {w'} read h =
      decoded-eq-created (req.username == "" || (req.password == "" || req.role == ""))
        (hash_password crypto salt req.password) w req {u = u} {w' = w'} (rw read at h)

  -- After POST /api/users has been answered 201, a login with the name and the password of the request,
  -- on tables with the users that it left, when no call fails, is answered 200, and the id of the
  -- answer is in the renewed session, provided that the encodings of the hash read back.
  pub created_can_log_in :
      (salt : List ℕ) (r r' : Request) (cu cu' : Option CurrentUser) (w w₁ w₂ : Web sm)
      {req : CreateUserRequest} {u : UserResponse} {renewed : sm.Session}
      → json.create_user r.body ≡ some req
      → create_user_handler sm conn json crypto (some salt) r cu w ≡ (reply 201 (user u), w₁)
      → ReadsBack crypto req.password salt
      → json.login r'.body ≡ some (record { username = req.username; password = req.password })
      → w₂.state.db.users ≡ w₁.state.db.users
      → is_due w₂.state.faults ≡ false
      → sm.renew_token w₂.session ≡ some renewed
      → login_handler json crypto sm r' cu' w₂ ≡ (
        reply 200 status_ok,
        record { session = sm.put_user_id u.id renewed; state = tick w₂.state },
      )
  unfolding login_handler hash_password scan_user to_user_response
  created_can_log_in salt r r' cu cu' w w₁ w₂ {req} {u} {renewed} read made encodes sent kept calm
        renews =
      let (hash, new, hashed, ran, answer) =
        create_user_handler-eq-created (some salt) r cu w read made in
      let c = create_user-eq-ok conn req.username hash req.role w.state ran in
      let (found, by_number) =
        create_user-found conn req.username hash req.role w.state w₂.state ran kept calm in
      let same : phc crypto salt (key crypto req.password salt) ≡ hash = ground arith in
      let stored : new.password_hash ≡ hash = ap (λ (x : User). x.password_hash) c.user in
      let active : new.active ≡ true = ap (λ (x : User). x.active) c.user in
      let accepted : verify_password crypto new.password_hash req.password ≡ true =
        ap (λ h. verify_password crypto h req.password) (stored ∙ sym same)
        ∙ verify-phc crypto req.password salt encodes in
      let number : new.id ≡ u.id = ap (λ (x : UserResponse). x.id) answer in
      rw (sent, found, active, accepted, renews)
        (ap
          (λ id. (
            reply 200 status_ok,
            record w₂ { session = sm.put_user_id id renewed; state = tick w₂.state },
          ))
          number)
