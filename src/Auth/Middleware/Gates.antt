-- ===== src/Auth/Middleware/Gates.antt =====
-- The two ways through the middleware: a refusal, or the next handler with the user's identity.
use nonprofit_ledger.Prelude.{
  ℕ, String, ◌≡◌, refl, sym, ◌∙◌, ap, ◌⊎◌, inl, inr, true, Bool-cases, Option-cases, any, Option,
  some, List, ◌==◌, arith,
}
use nonprofit_ledger.Exec.{State, Result, ok, err}
use nonprofit_ledger.Users.{User, by_id}
use nonprofit_ledger.Auth.Session.{SessionManager}
use nonprofit_ledger.Auth.Middleware.{CurrentUser, Web, Handler, admit, require_auth, require_role}

-- A lookup by id changes no table, whether it finds the user or not.
pub by_id-db : (id : ℕ) (s : State) → (by_id id s).1.db ≡ s.db
unfolding by_id
by_id-db id s = ground arith

abbrev pub current : User → CurrentUser
current u = record { id = u.id; role = u.role }

module _ (sm : SessionManager) {Response : Type 0} (refuse : ℕ → Response) where
  -- What the session of `w` says of its user: the id, the user that is loaded by it, who is active.
  pub record IsSignedIn (w : Web sm) (u : User) (t : State) : Type 0 where
    pub user_id : ℕ
    pub in_session : sm.get_user_id w.session ≡ some user_id
    pub loaded : by_id user_id w.state ≡ (ok u, t)
    pub active : u.active ≡ true

  -- A refusal leaves the session and the tables alone.
  pub record IsRefused (code : ℕ) (w : Web sm) (result : Response × Web sm) : Type 0 where
    pub response : result.0 ≡ refuse code
    pub session : result.1.session ≡ w.session
    pub db : result.1.state.db ≡ w.state.db

  admit_lem :
      (next : Handler sm Response) (w : Web sm) (id : ℕ)
      → sm.get_user_id w.session ≡ some id
      → (r : Result User) (t : State) → by_id id w.state ≡ (r, t)
      → IsRefused 401 w (admit sm refuse next r (record w { state = t }))
        ⊎ ((u : User) × (v : State) × IsSignedIn w u v
            × (admit sm refuse next r (record w { state = t })
                ≡ next (some (current u)) (record w { state = v })))
  admit_lem next w id e (err x) t h = inl (record {
    response = refl;
    session = refl;
    db = ap (λ (p : Result User × State). p.1.db) (sym h) ∙ by_id-db id w.state;
  })
  admit_lem next w id e (ok u) t h = elim (Bool-cases u.active) [
    | inl active ↦
        inr (u, t, record { user_id = id; in_session = e; loaded = h; active = active }, rw active)
    | inr inactive ↦ inl (
        rw inactive (record {
          response = refl;
          session = refl;
          db = ap (λ (p : Result User × State). p.1.db) (sym h) ∙ by_id-db id w.state;
        }))
  ]

  -- `RequireAuth` answers 401, or calls the next handler for a user who is signed in.
  pub require_auth_lem :
      (next : Handler sm Response) (cu : Option CurrentUser) (w : Web sm)
      → IsRefused 401 w (require_auth sm refuse next cu w)
        ⊎ ((u : User) × (t : State) × IsSignedIn w u t
            × (require_auth sm refuse next cu w ≡ next (some (current u)) (record w { state = t })))
  unfolding require_auth
  require_auth_lem next cu w = elim (Option-cases (sm.get_user_id w.session)) [
    | inl anonymous ↦ rw anonymous (inl (record { response = refl; session = refl; db = refl }))
    | inr (id, e) ↦ rw e (admit_lem next w id e (by_id id w.state).0 (by_id id w.state).1 refl)
  ]

  -- `RequireRole` answers 403, or calls the next handler for a user with an allowed role.
  pub require_role_lem :
      (allowed : List String) (next : Handler sm Response) (cu : CurrentUser) (w : Web sm)
      → IsRefused 403 w (require_role sm refuse allowed next (some cu) w)
        ⊎ ((any (λ r. r == cu.role) allowed ≡ true)
            × (require_role sm refuse allowed next (some cu) w ≡ next (some cu) w))
  unfolding require_role
  require_role_lem allowed next cu w = elim (Bool-cases (any (λ r. r == cu.role) allowed)) [
    | inl yes_role ↦ inr (yes_role, rw yes_role)
    | inr no_role ↦ inl (rw no_role (record { response = refl; session = refl; db = refl }))
  ]
