-- ===== src/Api/Routes/Guards.antt =====
-- What a request without a signed-in user, or without the role, comes to.
use nonprofit_ledger.Prelude.{
  find-append, find-append_some, All-find, ℕ, ◌≡◌, refl, sym, ap, subst, contains, All-append, ◌∙◌,
  inl, inr, Option-cases, true, false, find, All, none, List, [], ◌∷◌, ◌++◌, ◌==◌, arith,
}
use nonprofit_ledger.Exec.{State, Result}
use nonprofit_ledger.Users.{User}
use nonprofit_ledger.Auth.Session.{SessionManager}
use nonprofit_ledger.Auth.Middleware.{Web, Handler, require_role}
use nonprofit_ledger.Auth.Middleware.Gates.{
  by_id-db, current, IsSignedIn, IsRefused, require_auth_lem, require_role_lem,
}
use nonprofit_ledger.Api.Http.{Request, Response, refuse}
use nonprofit_ledger.Api.Routes.{
  Route, Server, admin_only, all_roles, public_routes, admin_routes, shared_routes, register_routes,
  fits, serve_found, serve,
}

module _ (sm : SessionManager) where
  -- A request that was not let through: its answer, and that nothing was changed for it.
  pub record IsTurnedAway (w : Web sm) (result : Response × Web sm) : Type 0 where
    pub status : contains result.0.status (401 ∷ 403 ∷ 404 ∷ 405 ∷ []) ≡ true
    pub session : result.1.session ≡ w.session
    pub db : result.1.state.db ≡ w.state.db

  -- Nobody who is signed in with this session is an admin.
  abbrev pub IsNoAdmin : Web sm → Type 0
  IsNoAdmin w = (u : User) (t : State) → IsSignedIn sm refuse w u t → ("admin" == u.role) ≡ false

  -- Nobody is signed in with this session.
  abbrev pub IsAnonymous : Web sm → Type 0
  IsAnonymous w = (u : User) (t : State) → ¬ IsSignedIn sm refuse w u t

  pub signed-db :
      {w : Web sm} {u : User} {t : State} → IsSignedIn sm refuse w u t → t.db ≡ w.state.db
  signed-db {w} signed =
      ap (λ (p : Result User × State). p.1.db) (sym signed.loaded) ∙ by_id-db signed.user_id w.state

  refused-IsTurnedAway :
      (code : ℕ) (w : Web sm) (result : Response × Web sm)
      → contains code (401 ∷ 403 ∷ 404 ∷ 405 ∷ []) ≡ true
      → IsRefused sm refuse code w result
      → IsTurnedAway w result
  refused-IsTurnedAway code w result listed r = record {
    status =
        ap (λ (a : Response). contains a.status (401 ∷ 403 ∷ 404 ∷ 405 ∷ [])) r.response ∙ listed;
    session = r.session;
    db = r.db;
  }

  admin_only-IsTurnedAway :
      (next : Handler sm Response) (w : Web sm)
      → IsNoAdmin w
      → IsTurnedAway w (admin_only sm next none w)
  unfolding admin_only
  admin_only-IsTurnedAway next w h =
      elim (require_auth_lem sm refuse (require_role sm refuse ("admin" ∷ []) next) none w) [
        | inl refused ↦ refused-IsTurnedAway 401 w _ refl refused
        | inr (u, t, signed, e) ↦
            elim (require_role_lem sm refuse ("admin" ∷ []) next (current u)
              (record w { state = t })) [
                | inl refused ↦
                    let r = refused-IsTurnedAway 403 _ _ refl refused in
                    subst (IsTurnedAway w) (sym e) (record {
                      status = r.status;
                      session = r.session;
                      db = r.db ∙ signed-db signed;
                    })
                | inr (listed, _) ↦ absurd (ground (arith, h u t signed))
              ]
      ]

  all_roles-IsTurnedAway :
      (next : Handler sm Response) (w : Web sm)
      → IsAnonymous w
      → IsTurnedAway w (all_roles sm next none w)
  unfolding all_roles
  all_roles-IsTurnedAway next w h =
      elim (require_auth_lem sm refuse
        (require_role sm refuse ("admin" ∷ "staff_bookkeeper" ∷ "external_accountant" ∷ []) next)
        none w) [
          | inl refused ↦ refused-IsTurnedAway 401 w _ refl refused
          | inr (u, t, signed, e) ↦ absurd (h u t signed)
        ]

  IsAnonymous-IsNoAdmin : {w : Web sm} → IsAnonymous w → IsNoAdmin w
  IsAnonymous-IsNoAdmin h u t signed = absurd (h u t signed)

  -- A request that fits no route is answered by the multiplexer itself.
  unknown-IsTurnedAway :
      (routes : List (Route sm)) (r : Request) (w : Web sm)
      → IsTurnedAway w (serve_found sm routes none r w)
  unknown-IsTurnedAway routes r w = record { status = ground arith; session = refl; db = refl }

  -- What holds of the handlers of all routes in a list holds of the one that is chosen.
  chosen-IsTurnedAway :
      (all routes : List (Route sm)) (r : Request) (w : Web sm)
      → All (λ (p : Route sm). IsTurnedAway w (p.handler r none w)) routes
      → IsTurnedAway w (serve_found sm all (find (fits sm r) routes) r w)
  chosen-IsTurnedAway all routes r w h = elim (Option-cases (find (fits sm r) routes)) [
    | inl nothing ↦ rw nothing (unknown-IsTurnedAway all r w)
    | inr (p, e) ↦
        rw e
          (All-find (λ (q : Route sm). IsTurnedAway w (q.handler r none w)) (fits sm r) routes h e)
  ]

  module _ (server : Server) where
    admin_routes-IsTurnedAway :
        (r : Request) (w : Web sm)
        → IsNoAdmin w
        → All (λ (p : Route sm). IsTurnedAway w (p.handler r none w)) (admin_routes sm server)
    unfolding admin_routes
    admin_routes-IsTurnedAway r w h =
        let away = λ (next : Handler sm Response). admin_only-IsTurnedAway next w h in
        (away _, (away _, (away _, (away _, (away _, (away _, tt))))))

    shared_routes-IsTurnedAway :
        (r : Request) (w : Web sm)
        → IsAnonymous w
        → All (λ (p : Route sm). IsTurnedAway w (p.handler r none w)) (shared_routes sm server)
    unfolding shared_routes
    shared_routes-IsTurnedAway r w h =
        let away = λ (next : Handler sm Response). all_roles-IsTurnedAway next w h in
        (away _, (away _, tt))

    -- A request of a session in which nobody is signed in (no user id, an unknown user, one that is
    -- not active, or a failed lookup) that is not for a public route is answered 401, 404 or
    -- 405 or 403, and changes neither the session nor any table.
    pub anonymous-IsTurnedAway :
        (r : Request) (w : Web sm)
        → IsAnonymous w
        → find (fits sm r) (public_routes sm server) ≡ none
        → IsTurnedAway w (serve sm (register_routes sm server) r w)
    unfolding serve register_routes
    anonymous-IsTurnedAway r w h closed =
        let guarded = admin_routes sm server ++ shared_routes sm server in
        rw (find-append (fits sm r) (public_routes sm server) guarded closed) (
          chosen-IsTurnedAway (register_routes sm server) guarded r w (
            All-append (λ (p : Route sm). IsTurnedAway w (p.handler r none w))
              (admin_routes sm server) (shared_routes sm server)
              (admin_routes-IsTurnedAway r w (IsAnonymous-IsNoAdmin h))
              (shared_routes-IsTurnedAway r w h)))

    -- A request by anyone but an active admin (an external accountant or a bookkeeper among them)
    -- that is neither for a public route nor for one of the shared ledger and report routes is
    -- answered 401, 403, 404 or 405, and changes neither the session nor any table.
    pub non_admin-IsTurnedAway :
        (r : Request) (w : Web sm)
        → IsNoAdmin w
        → find (fits sm r) (public_routes sm server) ≡ none
        → find (fits sm r) (shared_routes sm server) ≡ none
        → IsTurnedAway w (serve sm (register_routes sm server) r w)
    unfolding serve register_routes
    non_admin-IsTurnedAway r w h closed apart =
        let guarded = admin_routes sm server ++ shared_routes sm server in
        rw (find-append (fits sm r) (public_routes sm server) guarded closed)
          (elim (Option-cases (find (fits sm r) (admin_routes sm server))) [
            | inl nothing ↦
                rw
                  (find-append (fits sm r) (admin_routes sm server) (shared_routes sm server)
                    nothing)
                  (rw apart (unknown-IsTurnedAway (register_routes sm server) r w))
            | inr (p, e) ↦
                rw
                  (find-append_some (fits sm r) (admin_routes sm server) (shared_routes sm server)
                    e)
                  (All-find (λ (q : Route sm). IsTurnedAway w (q.handler r none w)) (fits sm r)
                    (admin_routes sm server) (admin_routes-IsTurnedAway r w h) e)
          ])
