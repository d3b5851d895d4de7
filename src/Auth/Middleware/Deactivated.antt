-- ===== src/Auth/Middleware/Deactivated.antt =====
-- What a deactivated user's session is still good for.
use nonprofit_ledger.Prelude.{
  ℕ, ◌≡◌, refl, sym, ◌∙◌, ap, subst, inl, inr, Bool, true, false, Bool-cases, Option-cases, eqb,
  find, if◌then◌else◌, Option, some, List, [], ◌∷◌, map, arith,
}
use nonprofit_ledger.Schema.{Db, UserRow}
use nonprofit_ledger.Exec.{State, done, ok, sql, no_rows, later, tick, raise_if}
use nonprofit_ledger.Exec.Inversion.{statement_then, fallible_then}
use nonprofit_ledger.Users.{User, scan_user, by_id, update_users, inactive, deactivate}
use nonprofit_ledger.Auth.Session.{SessionManager}
use nonprofit_ledger.Auth.Middleware.{CurrentUser, Web, Handler, require_auth}
use nonprofit_ledger.Auth.Middleware.Gates.{IsRefused, require_auth_lem}

-- The table of users after a deactivation.
abbrev pub deactivated : ℕ → List UserRow → List UserRow
deactivated id = map (λ (r : UserRow). if eqb r.id id then inactive r else r)

update_users-inactive :
    (id : ℕ) (before after : Db) {n : ℕ}
    → update_users inactive id before ≡ done n after
    → after.users ≡ deactivated id before.users
unfolding update_users
update_users-inactive id before after h = cc

raise_if-eq-ok :
    (b : Bool) (s : State) {t : State} → raise_if b (sql no_rows) s ≡ (ok tt, t) → t ≡ s
raise_if-eq-ok true s h = cc
raise_if-eq-ok false s h = cc

pub deactivate-eq-ok :
    (id : ℕ) (s : State) {t : State}
    → deactivate id s ≡ (ok tt, t)
    → t.db.users ≡ deactivated id s.db.users
unfolding deactivate
deactivate-eq-ok id s {t} h =
    let (n, db, updated, h₁) = statement_then (update_users inactive id) _ s h in
    let h₂ = fallible_then n _ (record { db = db; faults = later s.faults }) h₁ in
    let left = raise_if-eq-ok (eqb n 0) (tick (record { db = db; faults = later s.faults })) h₂ in
    ap (λ (u : State). u.db.users) left ∙ update_users-inactive id s.db db updated

find-deactivated :
    (id : ℕ) (rows : List UserRow) {r : UserRow}
    → find (λ (q : UserRow). eqb q.id id) (deactivated id rows) ≡ some r
    → (scan_user r).active ≡ false
unfolding scan_user
find-deactivated id [] h = cc
find-deactivated id (q ∷ rows) {r} h = elim (Bool-cases (eqb q.id id)) [
  | inl here ↦
      let found : some (inactive q) ≡ some r = rw (here, here) at h in
      let same : inactive q ≡ r = cc in
      subst (λ (x : UserRow). (scan_user x).active ≡ false) same refl
  | inr other ↦ find-deactivated id rows {r = r} (rw (other, other) at h)
]

by_id-eq-ok :
    (id : ℕ) (s : State) {u : User} {t : State}
    → by_id id s ≡ (ok u, t)
    → (r : UserRow) × (find (λ (q : UserRow). eqb q.id id) s.db.users ≡ some r) × (u ≡ scan_user r)
unfolding by_id
by_id-eq-ok id s {u} h = elim (Option-cases (find (λ (q : UserRow). eqb q.id id) s.db.users)) [
  | inl missing ↦ absurd (ground arith)
  | inr (r, found) ↦ (r, found, ground arith)
]

module _ (sm : SessionManager) {Response : Type 0} (refuse : ℕ → Response) where
  -- After `Deactivate` has returned without an error, `RequireAuth` answers 401 to every request of
  -- a session of that user, on tables with the users that it left, and changes neither the session
  -- nor any table: a session that was opened before is no longer good.
  pub deactivated-IsRefused :
      (user_id : ℕ) (s t : State) (next : Handler sm Response) (cu : Option CurrentUser)
      (w : Web sm)
      → deactivate user_id s ≡ (ok tt, t)
      → w.state.db.users ≡ t.db.users
      → sm.get_user_id w.session ≡ some user_id
      → IsRefused sm refuse 401 w (require_auth sm refuse next cu w)
  deactivated-IsRefused user_id s t next cu w h kept session =
      elim (require_auth_lem sm refuse next cu w) [
        | inl refused ↦ refused
        | inr (u, v, signed, e) ↦
            let same : signed.user_id ≡ user_id = cc in
            let (r, found, scan) =
              by_id-eq-ok user_id w.state
                (subst (λ i. by_id i w.state ≡ (ok u, v)) same signed.loaded) in
            let table = kept ∙ deactivate-eq-ok user_id s h in
            let gone =
              find-deactivated user_id s.db.users {r = r}
                (ap (find (λ (q : UserRow). eqb q.id user_id)) (sym table) ∙ found) in
            let active : (scan_user r).active ≡ true =
              ap (λ (x : User). x.active) (sym scan) ∙ signed.active in
            absurd (ground (arith, gone, active))
      ]
