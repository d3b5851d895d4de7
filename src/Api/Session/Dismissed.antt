-- ===== src/Api/Session/Dismissed.antt =====
-- The login of a user who has been deactivated.
use nonprofit_ledger.Prelude.{
  ℕ, String, ◌≡◌, refl, sym, ◌∙◌, ap, true, false, inl, inr, Bool-cases, eqb, find, Option, some,
  List, [], ◌∷◌, ◌==◌, eq_iff, map, arith, false≢true,
}
use nonprofit_ledger.Prelude.Sort.{Nodup, has}
use nonprofit_ledger.Schema.{UserRow}
use nonprofit_ledger.Exec.{State, ok, query, statement, ◌>>=◌}
use nonprofit_ledger.Users.{User, scan_user, by_username, inactive, deactivate}
use nonprofit_ledger.Auth.Session.{SessionManager}
use nonprofit_ledger.Auth.Middleware.{CurrentUser, Web}
use nonprofit_ledger.Auth.Middleware.Deactivated.{deactivated, deactivate-eq-ok}
use nonprofit_ledger.Auth.Password.{Crypto}
use nonprofit_ledger.Api.Http.{Request, LoginRequest, Json}
use nonprofit_ledger.Api.Session.{login_handler}
use nonprofit_ledger.Api.Session.Login.{IsTrusted, IsDenied, login_handler_lem}

abbrev pub usernames : List UserRow → List String
usernames = map (λ (r : UserRow). r.username)

abbrev with_id : ℕ → List UserRow → Option UserRow
with_id id = find (λ (r : UserRow). eqb r.id id)

abbrev with_name : String → List UserRow → Option UserRow
with_name name = find (λ (r : UserRow). r.username == name)

with_id-has :
    (id : ℕ) (rows : List UserRow) {r : UserRow}
    → with_id id rows ≡ some r
    → has r.username (usernames rows) ≡ true
with_id-has id [] h = cc
with_id-has id (q ∷ rows) {r} h = elim (Bool-cases (eqb q.id id)) [
  | inl hit ↦
      let found : some q ≡ some r = rw hit at h in
      let self : (q.username == q.username) ≡ true = ground (arith, eq_iff q.username q.username) in
      let named : (q.username == r.username) ≡ true = ground arith in rw named refl
  | inr other ↦
      let rest = with_id-has id rows {r = r} (rw other at h) in
      elim (Bool-cases (q.username == r.username)) [
        | inl same ↦ rw same refl
        | inr differs ↦ rw (differs, rest) refl
      ]
]

-- Where names differ, the row of a deactivated user is what a look-up by the name finds.
with_name-deactivated :
    (id : ℕ) (rows : List UserRow) {r : UserRow}
    → Nodup (usernames rows)
    → with_id id rows ≡ some r
    → with_name r.username (deactivated id rows) ≡ some (inactive r)
with_name-deactivated id [] n h = cc
with_name-deactivated id (q ∷ rows) {r} n h = elim (Bool-cases (eqb q.id id)) [
  | inl hit ↦
      let found : some q ≡ some r = rw hit at h in
      let self : (q.username == q.username) ≡ true = ground (arith, eq_iff q.username q.username) in
      let named : (q.username == r.username) ≡ true = ground arith in
      let same : q ≡ r = cc in rw (hit, named) (ap (λ x. some (inactive x)) same)
  | inr other ↦
      let later : with_id id rows ≡ some r = rw other at h in
      elim (Bool-cases (q.username == r.username)) [
        | inl same ↦
            let equal = (eq_iff q.username r.username).0 same in
            absurd (
              false≢true (
                sym n.0
                ∙ ap (λ m. has m (usernames rows)) equal
                ∙ with_id-has id rows {r = r} later))
        | inr differs ↦ rw (other, differs) (with_name-deactivated id rows {r = r} n.1 later)
      ]
]

by_username-inactive :
    (name : String) (s : State) (r : UserRow) {u : User} {t : State}
    → with_name name s.db.users ≡ some (inactive r)
    → by_username name s ≡ (ok u, t)
    → u.active ≡ false
unfolding by_username query statement scan_user ◌>>=◌
by_username-inactive name s r h k = ground arith

-- After Deactivate has returned without an error, on a table in which no two users have the same
-- name, every login with the name of the user, whatever the password, is denied like any bad
-- credentials and leaves the session as it is, on tables with the users that it left.
pub dismissed-IsDenied :
    (json : Json) (crypto : Crypto) (sm : SessionManager) (user_id : ℕ) (s t : State)
    (request : Request) (cu : Option CurrentUser) (w : Web sm) {row : UserRow} {req : LoginRequest}
    → Nodup (usernames s.db.users)
    → find (λ (r : UserRow). eqb r.id user_id) s.db.users ≡ some row
    → deactivate user_id s ≡ (ok tt, t)
    → w.state.db.users ≡ t.db.users
    → json.login request.body ≡ some req
    → req.username ≡ row.username
    → IsDenied crypto sm req w (login_handler json crypto sm request cu w)
dismissed-IsDenied json crypto sm user_id s t request cu w {row} {req} n known gone kept sent
      named =
    let table = kept ∙ deactivate-eq-ok user_id s gone in
    let found : with_name req.username w.state.db.users ≡ some (inactive row) =
      ap (λ m. with_name m w.state.db.users) named
      ∙ ap (with_name row.username) table
      ∙ with_name-deactivated user_id s.db.users n known in
    let shut : (u : User) → IsTrusted crypto req w.state u → true ≡ false =
      λ u good. sym good.active ∙ by_username-inactive req.username w.state row found good.loaded in
    elim (login_handler_lem json crypto sm request cu w sent).0 [
      | inl let_in ↦ absurd (false≢true (sym (shut let_in.user let_in.trusted)))
      | inr (inl denied) ↦ denied
      | inr (inr broken) ↦ absurd (false≢true (sym (shut broken.user broken.trusted)))
    ]
