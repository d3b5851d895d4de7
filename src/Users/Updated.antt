-- ===== src/Users/Updated.antt =====
-- What UpdateRole and Deactivate do to the user with the id, and to all others.
use nonprofit_ledger.Prelude.{
  ℕ, ⊤, String, ◌≡◌, refl, sym, ◌∙◌, ap, subst, true, false, not, inl, inr, Bool-cases,
  Option-cases, eqb, find, select, length, if◌then◌else◌, Option, none, some, List, [], ◌∷◌, map,
  arith,
}
use nonprofit_ledger.Schema.{Db, UserRow}
use nonprofit_ledger.Exec.{
  State, Exec, Outcome, ok, sql, no_rows, invalid_role, is_due, tick, later, raise_if, statement,
  fallible, query, ◌>>=◌,
}
use nonprofit_ledger.Exec.Inversion.{statement_then, fallible_then, raise_if_then, raise_if-eq-ok}
use nonprofit_ledger.Users.Roles.{set_role-valid}
use nonprofit_ledger.Users.{
  User, valid_role, scan_user, by_id, update_users, with_role, inactive, update_role, deactivate,
}
use nonprofit_ledger.Users.Created.{by_id-found}

abbrev with_id : ℕ → List UserRow → Option UserRow
with_id id = find (λ (r : UserRow). eqb r.id id)

-- The update, and the test of the number of rows.
abbrev updating : (UserRow → UserRow) → ℕ → Exec ⊤
updating f user_id = statement (update_users f user_id) >>= λ affected.
    fallible affected >>= λ n. raise_if (eqb n 0) (sql no_rows)

module _ (f : UserRow → UserRow) (user_id : ℕ) (same_id : (r : UserRow) → (f r).id ≡ r.id) where
  abbrev changed : List UserRow → List UserRow
  changed = map (λ (r : UserRow). if eqb r.id user_id then f r else r)

  changed-hit :
      (rows : List UserRow) {r : UserRow}
      → with_id user_id rows ≡ some r
      → with_id user_id (changed rows) ≡ some (f r)
  changed-hit [] h = cc
  changed-hit (q ∷ rows) {r} h = elim (Bool-cases (eqb q.id user_id)) [
    | inl hit ↦
        let found : some q ≡ some r = rw hit at h in
        let same : q ≡ r = cc in
        let stays : eqb (f q).id user_id ≡ true = ap (λ i. eqb i user_id) (same_id q) ∙ hit in
        rw (hit, stays) (ap (λ x. some (f x)) same)
    | inr other ↦ rw (other, other) (changed-hit rows {r = r} (rw other at h))
  ]

  changed-other :
      (id : ℕ) (rows : List UserRow)
      → eqb id user_id ≡ false
      → with_id id (changed rows) ≡ with_id id rows
  changed-other id [] h = refl
  changed-other id (q ∷ rows) h = elim (Bool-cases (eqb q.id user_id)) [
    | inl hit ↦
        let apart : eqb q.id id ≡ false = ground arith in
        let stays : eqb (f q).id id ≡ false = ap (λ i. eqb i id) (same_id q) ∙ apart in
        rw (hit, stays, apart) (changed-other id rows h)
    | inr other ↦ rw other (ground (arith, changed-other id rows h))
  ]

  missing-select :
      (rows : List UserRow)
      → with_id user_id rows ≡ none
      → select (λ (r : UserRow). eqb r.id user_id) rows ≡ []
  missing-select [] h = refl
  missing-select (q ∷ rows) h = ground (arith, missing-select rows)

  updating-eq-ok :
      (s : State) {t : State}
      → updating f user_id s ≡ (ok tt, t)
      → (t.db.users ≡ changed s.db.users) × (r : UserRow) × (with_id user_id s.db.users ≡ some r)
  unfolding update_users
  updating-eq-ok s {t} h =
      let (n, db, updated, h₁) = statement_then (update_users f user_id) _ s h in
      let h₂ = fallible_then n _ (record { db = db; faults = later s.faults }) h₁ in
      let (some_rows, left) = raise_if-eq-ok (eqb n 0) (sql no_rows) _ h₂ in
      let users : db.users ≡ changed s.db.users = cc in
      let counted : length (select (λ (r : UserRow). eqb r.id user_id) s.db.users) ≡ n = cc in
      let row : (r : UserRow) × (with_id user_id s.db.users ≡ some r) =
        elim (Option-cases (with_id user_id s.db.users)) [
          | inr found ↦ found
          | inl missing ↦
              let nothing = missing-select s.db.users missing in
              let zero : n ≡ 0 = sym counted ∙ ap length nothing in absurd (ground arith)
        ] in
      (ap (λ (u : State). u.db.users) left ∙ users, row.0, row.1)

-- What ByID returns after a change of one user, against what it returned before: the changed user for
-- the id, and the same for every other id.
pub record IsChanged (g : User → User) (user_id : ℕ) (before after : State) : Type 0 where
  pub user : User
  pub was : by_id user_id before ≡ (ok user, tick before)
  pub is : by_id user_id after ≡ (ok (g user), tick after)
  pub others : (id : ℕ) → eqb id user_id ≡ false → (by_id id after).0 ≡ (by_id id before).0

by_id-same :
    (id : ℕ) (v w : State)
    → is_due v.faults ≡ false
    → is_due w.faults ≡ false
    → with_id id w.db.users ≡ with_id id v.db.users
    → (by_id id w).0 ≡ (by_id id v).0
unfolding by_id query statement ◌>>=◌
by_id-same id v w calm calm' same = elim (Option-cases (with_id id v.db.users)) [
  | inl missing ↦ rw (calm, calm', missing, same ∙ missing) refl
  | inr (r, found) ↦ rw (calm, calm', found, same ∙ found) refl
]

updated-IsChanged :
    (f : UserRow → UserRow) (user_id : ℕ)
    → ((r : UserRow) → (f r).id ≡ r.id)
    → (g : User → User) → ((r : UserRow) → scan_user (f r) ≡ g (scan_user r))
    → (s : State) {t : State} (v w : State) → updating f user_id s ≡ (ok tt, t)
    → v.db.users ≡ s.db.users
    → w.db.users ≡ t.db.users
    → is_due v.faults ≡ false
    → is_due w.faults ≡ false
    → IsChanged g user_id v w
updated-IsChanged f user_id same_id g scans s v w h was is calm calm' =
    let (users, r, found) = updating-eq-ok f user_id same_id s h in
    let table = is ∙ users in
    record {
      user = scan_user r;
      was = by_id-found v calm user_id r (ap (with_id user_id) was ∙ found);
      is =
          by_id-found w calm' user_id (f r)
            (ap (with_id user_id) table ∙ changed-hit f user_id same_id s.db.users found)
          ∙ (λ i. (ok (scans r i), tick w));
      others = λ id apart. by_id-same id v w calm calm' (
          ap (with_id id) table
          ∙ changed-other f user_id same_id id s.db.users apart
          ∙ ap (with_id id) (sym was));
    }

-- After UpdateRole or Deactivate has returned without an error, ByID returns for the id the user it
-- returned before, with the new role or as inactive, and for every other id what it returned before;
-- the look-ups are on tables with the users before and after, and the driver does not fail them.
pub update-IsChanged :
    (user_id : ℕ) (role : String) (s : State) {t t' : State} (v w w' : State)
    → update_role user_id role s ≡ (ok tt, t)
    → deactivate user_id s ≡ (ok tt, t')
    → v.db.users ≡ s.db.users
    → w.db.users ≡ t.db.users
    → w'.db.users ≡ t'.db.users
    → is_due v.faults ≡ false
    → is_due w.faults ≡ false
    → is_due w'.faults ≡ false
    → IsChanged (λ u. record u { role = role }) user_id v w
      × IsChanged (λ u. record u { active = false }) user_id v w'
unfolding update_role deactivate scan_user
update-IsChanged user_id role s {t} v w w' h k was is is' calm calm_w calm_w' =
    let (passed, h₁) = raise_if_then (not (valid_role role)) invalid_role _ s h in
    let valid : valid_role role ≡ true = ground arith in
    let h₂ : updating (with_role role) user_id s ≡ (ok tt, t) =
      subst
        (λ (f : Db → Outcome ℕ).
          (statement f >>= λ affected. fallible affected >>= λ n. raise_if (eqb n 0) (sql no_rows))
            s
          ≡ (ok tt, t))
        (set_role-valid role user_id valid) h₁ in
    (
      updated-IsChanged (with_role role) user_id (λ r. refl) (λ u. record u { role = role })
          (λ r. refl) s v w h₂ was is calm calm_w,
      updated-IsChanged inactive user_id (λ r. refl) (λ u. record u { active = false }) (λ r. refl)
          s v w' k was is' calm calm_w',
    )
