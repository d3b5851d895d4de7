-- ===== src/Api/Session/Lifecycle.antt =====
-- A session from its login to its logout: loginHandler, RequireAuth and logoutHandler together.
use nonprofit_ledger.Prelude.{
  ℕ, String, ◌≡◌, ◌⊎◌, refl, sym, ◌∙◌, ap, true, false, inl, inr, Bool-cases, Option-cases,
  contains, eqb, eqb_iff, find, Option, none, some, List, [], ◌∷◌, ◌==◌, map, arith, false≢true,
}
use nonprofit_ledger.Prelude.Distinct.{IsApart}
use nonprofit_ledger.Schema.{UserRow, user_ids}
use nonprofit_ledger.Exec.{State, Result, ok, tick, is_due}
use nonprofit_ledger.Users.{User, scan_user, by_username, by_id}
use nonprofit_ledger.Users.Created.{by_id-found}
use nonprofit_ledger.Auth.Session.{SessionManager}
use nonprofit_ledger.Auth.Middleware.{CurrentUser, Web, Handler, require_auth}
use nonprofit_ledger.Auth.Middleware.Gates.{current, IsRefused}
use nonprofit_ledger.Auth.Password.{Crypto}
use nonprofit_ledger.Api.Http.{
  Request, LoginRequest, Json, Response, reply, reply_error, refuse, status_ok,
}
use nonprofit_ledger.Api.Session.{login_handler, logout_handler}
use nonprofit_ledger.Api.Session.Login.{IsTrusted, login_handler_lem}

-- What the documentation of the session manager says of Put, GetInt64 and Destroy: the value that was
-- put is read back, and nothing is left in a session that was destroyed.
pub record IsSessionStore (sm : SessionManager) : Type 0 where
  pub get-put : (id : ℕ) (s : sm.Session) → sm.get_user_id (sm.put_user_id id s) ≡ some id
  pub get-destroy : (s t : sm.Session) → sm.destroy s ≡ some t → sm.get_user_id t ≡ none

found-contains :
    (name : String) (rows : List UserRow) {r : UserRow}
    → find (λ (q : UserRow). q.username == name) rows ≡ some r
    → contains r.id (map (λ (q : UserRow). q.id) rows) ≡ true
found-contains name [] h = cc
found-contains name (q ∷ rows) {r} h = elim (Bool-cases (q.username == name)) [
  | inl hit ↦
      let found : some q ≡ some r = rw hit at h in
      let same : q ≡ r = cc in
      let self : eqb r.id q.id ≡ true = ground (arith, ap (λ (x : UserRow). x.id) same) in
      rw self refl
  | inr other ↦ let rest = found-contains name rows {r = r} (rw other at h) in ground (arith, rest)
]

-- Where ids differ, the row that was found by its name is what a look-up by its id finds.
found-by_id :
    (name : String) (rows : List UserRow) {r : UserRow}
    → IsApart (map (λ (q : UserRow). q.id) rows)
    → find (λ (q : UserRow). q.username == name) rows ≡ some r
    → find (λ (q : UserRow). eqb q.id r.id) rows ≡ some r
found-by_id name [] apart h = cc
found-by_id name (q ∷ rows) {r} apart h = elim (Bool-cases (q.username == name)) [
  | inl hit ↦
      let found : some q ≡ some r = rw hit at h in
      let same : q ≡ r = cc in
      let self : eqb q.id r.id ≡ true = ground (arith, ap (λ (x : UserRow). x.id) same) in
      rw self found
  | inr other ↦
      let later : find (λ (x : UserRow). x.username == name) rows ≡ some r = rw other at h in
      elim (Bool-cases (eqb q.id r.id)) [
        | inl equal ↦ absurd (
            false≢true (
              sym apart.0
              ∙ ap (λ i. contains i (map (λ (x : UserRow). x.id) rows))
                  ((eqb_iff q.id r.id).0 equal)
              ∙ found-contains name rows {r = r} later))
        | inr differs ↦ rw differs (found-by_id name rows {r = r} apart.1 later)
      ]
]

by_username-eq-ok :
    (name : String) (s : State) {u : User} {t : State}
    → by_username name s ≡ (ok u, t)
    → (r : UserRow) × (find (λ (q : UserRow). q.username == name) s.db.users ≡ some r)
      × (u ≡ scan_user r)
unfolding by_username
by_username-eq-ok name s {u} h =
    elim (Option-cases (find (λ (q : UserRow). q.username == name) s.db.users)) [
      | inl missing ↦ absurd (ground arith)
      | inr (r, found) ↦ (r, found, ground arith)
    ]

-- Where ids differ, a user who is found by the name is found by the id of that user, on the same table.
by_username-by_id :
    (name : String) (s v : State) {u : User} {t : State}
    → IsApart (user_ids s.db)
    → v.db.users ≡ s.db.users
    → is_due v.faults ≡ false
    → by_username name s ≡ (ok u, t)
    → by_id u.id v ≡ (ok u, tick v)
unfolding scan_user
by_username-by_id name s v {u} apart kept calm h =
    let (row, found, made) = by_username-eq-ok name s h in
    let same_id : u.id ≡ row.id = ap (λ (x : User). x.id) made in
    let here : find (λ (q : UserRow). eqb q.id row.id) v.db.users ≡ some row =
      ap (find (λ (q : UserRow). eqb q.id row.id)) kept ∙ found-by_id name s.db.users apart found in
    let back : ◌≡◌ {A = Result User} (ok (scan_user row)) (ok u) = ap (λ x. ok x) (sym made) in
    ap (λ id. by_id id v) same_id ∙ by_id-found v calm row.id row here ∙ (λ i. (back i, tick v))

module _ (json : Json) (crypto : Crypto) (sm : SessionManager) (law : IsSessionStore sm) where
  -- A 200 lets somebody in.
  let_in-of-200 :
      (r : Request) (cu : Option CurrentUser) (w w₁ : Web sm) {req : LoginRequest}
      → json.login r.body ≡ some req
      → login_handler json crypto sm r cu w ≡ (reply 200 status_ok, w₁)
      → (user : User) × IsTrusted crypto req w.state user
        × (sm.get_user_id w₁.session ≡ some user.id)
  let_in-of-200 r cu w w₁ {req} sent answered =
      let answer : (login_handler json crypto sm r cu w).0 ≡ reply 200 status_ok =
        ap (λ (p : Response × Web sm). p.0) answered in
      let left = ap (λ (p : Response × Web sm). p.1.session) (sym answered) in
      let status = λ (x : Response). x.status in
      elim (login_handler_lem json crypto sm r cu w sent).0 [
        | inl let_in ↦ (
          let_in.user,
          let_in.trusted,
          ap sm.get_user_id (left ∙ let_in.session) ∙ law.get-put let_in.user.id let_in.renewed,
        )
        | inr (inl denied) ↦ absurd (omega (arith, ap status (sym denied.response ∙ answer)))
        | inr (inr broken) ↦ absurd (omega (arith, ap status (sym broken.response ∙ answer)))
      ]

  -- What a logout comes to: it is answered 200 and nobody is signed in any more, or 500 and the
  -- session is as it was.
  abbrev pub Leaves : Web sm → Response × Web sm → Web sm → Response × Web sm → Type 0
  Leaves w logout v later =
      ((logout.0 ≡ reply 200 status_ok) × IsRefused sm refuse 401 v later)
      ⊎ ((logout.0 ≡ reply_error 500 "internal error") × (logout.1.session ≡ w.session))

  logout-Leaves :
      (cu cu' : Option CurrentUser) (w v : Web sm) (next : Handler sm Response)
      → v.session ≡ (logout_handler json crypto sm cu w).1.session
      → Leaves w (logout_handler json crypto sm cu w) v (require_auth sm refuse next cu' v)
  unfolding logout_handler require_auth
  logout-Leaves cu cu' w v next same = elim (Option-cases (sm.destroy w.session)) [
    | inl failed ↦ rw failed (inr (refl, refl))
    | inr (ended, e) ↦
        let kept : v.session ≡ ended = same ∙ rw e refl in
        let gone = ap sm.get_user_id kept ∙ law.get-destroy w.session ended e in
        rw (e, gone) (inl (refl, record { response = refl; session = refl; db = refl }))
  ]

  -- With a session manager that keeps what is put into a session and nothing of a session that is
  -- destroyed, and on a table in which no two users have the same id: a login that is answered 200
  -- was made with the credentials of an active user, and a later request with the session that it
  -- left, as long as the users are the same and the driver does not fail the query, is let through
  -- by RequireAuth as that user. A logout of this session is answered 200, and then RequireAuth
  -- answers 401 to every request with the session that is left, or it is answered 500, and leaves
  -- the session as it was.
  pub signed_in_until_logout :
      (r : Request) (cu cu' : Option CurrentUser) (w w₁ w₂ v : Web sm) (next : Handler sm Response)
      {req : LoginRequest}
      → json.login r.body ≡ some req
      → login_handler json crypto sm r cu w ≡ (reply 200 status_ok, w₁)
      → IsApart (user_ids w.state.db)
      → w₂.session ≡ w₁.session
      → w₂.state.db.users ≡ w.state.db.users
      → is_due w₂.state.faults ≡ false
      → v.session ≡ (logout_handler json crypto sm cu w₂).1.session
      → ((user : User) × IsTrusted crypto req w.state user
          × (require_auth sm refuse next cu' w₂
              ≡ next (some (current user)) (record w₂ { state = tick w₂.state })))
        × Leaves w₂ (logout_handler json crypto sm cu w₂) v (require_auth sm refuse next cu' v)
  unfolding require_auth
  signed_in_until_logout r cu cu' w w₁ w₂ v next sent answered apart kept users calm same =
      let (user, trusted, got) = let_in-of-200 r cu w w₁ sent answered in
      let here = ap sm.get_user_id kept ∙ got in
      let found = by_username-by_id _ w.state w₂.state apart users calm trusted.loaded in
      ((user, trusted, rw (here, found, trusted.active)), logout-Leaves cu cu' w₂ v next same)
