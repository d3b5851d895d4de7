-- ===== src/Api/Session/Login.antt =====
-- What a login comes to: `loginHandler` of server/api/auth.go.
use nonprofit_ledger.Prelude.{
  String, ◌≡◌, ◌⊎◌, refl, sym, ◌∙◌, ap, true, inl, inr, Bool-cases, Option-cases, Option, none,
  some, arith,
}
use nonprofit_ledger.Exec.{State, Result, ok, err, query, statement, ◌>>=◌}
use nonprofit_ledger.Users.{User, by_username}
use nonprofit_ledger.Auth.Session.{SessionManager}
use nonprofit_ledger.Auth.Middleware.{CurrentUser, Web}
use nonprofit_ledger.Auth.Password.{Crypto, verify_password}
use nonprofit_ledger.Api.Http.{Request, LoginRequest, Json, Response, reply, reply_error, status_ok}
use nonprofit_ledger.Api.Session.{start_session, check_credentials, login_handler}

-- Credentials that are good: those of an active user of that name, whose password it is.
pub record IsTrusted (crypto : Crypto) (req : LoginRequest) (s : State) (user : User) : Type 0 where
  pub after : State
  pub loaded : by_username req.username s ≡ (ok user, after)
  pub active : user.active ≡ true
  pub verified : verify_password crypto user.password_hash req.password ≡ true

module _ (crypto : Crypto) (sm : SessionManager) (req : LoginRequest) (w : Web sm)
    (result : Response × Web sm) where
  -- Somebody is let in, and the id of the user goes into a renewed session.
  pub record IsLetIn : Type 0 where
    pub user : User
    pub trusted : IsTrusted crypto req w.state user
    pub renewed : sm.Session
    pub renewal : sm.renew_token w.session ≡ some renewed
    pub response : result.0 ≡ reply 200 status_ok
    pub session : result.1.session ≡ sm.put_user_id user.id renewed

  -- Nobody is let in, and the answer is one and the same for all such credentials.
  pub record IsDenied : Type 0 where
    pub untrusted : (user : User) → ¬ IsTrusted crypto req w.state user
    pub response : result.0 ≡ reply_error 401 "invalid credentials"
    pub session : result.1.session ≡ w.session

  -- The credentials are good, and the session manager has failed.
  pub record IsBroken : Type 0 where
    pub user : User
    pub trusted : IsTrusted crypto req w.state user
    pub renewal : sm.renew_token w.session ≡ none
    pub response : result.0 ≡ reply_error 500 "internal error"
    pub session : result.1.session ≡ w.session

  abbrev pub IsDecided : Type 0
  IsDecided = (IsLetIn ⊎ (IsDenied ⊎ IsBroken)) × (result.1.state.db ≡ w.state.db)

module _ (json : Json) (crypto : Crypto) (sm : SessionManager) (req : LoginRequest)
    (w : Web sm) where
  start_session_lem :
      (u : User) (t : State)
      → IsTrusted crypto req w.state u
      → t.db ≡ w.state.db
      → IsDecided crypto sm req w
          (start_session json crypto sm u.id (sm.renew_token w.session) (record w { state = t }))
  start_session_lem u t good same = elim (Option-cases (sm.renew_token w.session)) [
    | inl failed ↦ rw failed (
      inr (
          inr (record {
            user = u;
            trusted = good;
            renewal = failed;
            response = refl;
            session = refl;
          })),
      same,
    )
    | inr (renewed, e) ↦ rw e (
      inl (record {
        user = u;
        trusted = good;
        renewed = renewed;
        renewal = e;
        response = refl;
        session = refl;
      }),
      same,
    )
  ]

  -- Two answers to the same question are the same.
  same_user :
      {r r' : Result User} {t t' : State}
      → by_username req.username w.state ≡ (r, t)
      → by_username req.username w.state ≡ (r', t')
      → r ≡ r'
  same_user h k = ap (λ (p : Result User × State). p.0) (sym h ∙ k)

  check_credentials_lem :
      (r : Result User) (t : State)
      → by_username req.username w.state ≡ (r, t)
      → t.db ≡ w.state.db
      → IsDecided crypto sm req w
          (check_credentials json crypto sm req.password r (record w { state = t }))
  check_credentials_lem (err e) t h same = (
    inr (
        inl (record {
          untrusted = λ user good.
              let impossible : ◌≡◌ {A = Result User} (err e) (ok user) = same_user h good.loaded in
              cc;
          response = refl;
          session = refl;
        })),
    same,
  )
  check_credentials_lem (ok u) t h same = elim (Bool-cases u.active) [
    | inr inactive ↦ rw inactive (
      inr (
          inl (record {
            untrusted = λ user good.
                let other : ◌≡◌ {A = Result User} (ok u) (ok user) = same_user h good.loaded in
                let active = good.active in cc;
            response = refl;
            session = refl;
          })),
      same,
    )
    | inl active ↦ elim (Bool-cases (verify_password crypto u.password_hash req.password)) [
      | inr wrong ↦
          rw (active, wrong)
            (
              inr (
                  inl (record {
                    untrusted = λ user good.
                        let other : ◌≡◌ {A = Result User} (ok u) (ok user) =
                          same_user h good.loaded in
                        let verified = good.verified in cc;
                    response = refl;
                    session = refl;
                  })),
              same,
            )
      | inl right ↦
          rw (active, right)
            (start_session_lem u t
              (record { after = t; loaded = h; active = active; verified = right }) same)
    ]
  ]

by_username-db : (name : String) (s : State) → (by_username name s).1.db ≡ s.db
unfolding by_username query statement ◌>>=◌
by_username-db name s = ground arith

-- A login whose body reads as a user name and a password lets in, with 200 and the id of the user in
-- a renewed session, when they are those of an active user and the session manager renews the token;
-- it answers 500 when they are and the session manager fails, and otherwise 401, in the same words
-- for every reason; then the session stays as it is. No login changes a table.
pub login_handler_lem :
    (json : Json) (crypto : Crypto) (sm : SessionManager) (r : Request) (cu : Option CurrentUser)
    (w : Web sm) {req : LoginRequest}
    → json.login r.body ≡ some req
    → IsDecided crypto sm req w (login_handler json crypto sm r cu w)
unfolding login_handler
login_handler_lem json crypto sm r cu w {req} sent =
    let found = by_username req.username w.state in
    rw sent (
      check_credentials_lem json crypto sm req w found.0 found.1 refl
        (by_username-db req.username w.state))
