-- ===== src/Api/Routes/Steps.antt =====
-- What the handlers of server/api do to the tables: each makes at most one call of a function that
-- writes.
use nonprofit_ledger.Prelude.{
  ℕ, String, ◌≡◌, ◌⊎◌, refl, inl, inr, Bool-cases, Option-cases, All, Option, none, some, List, [],
  ◌∷◌, ◌==◌, ◌||◌, arith,
}
use nonprofit_ledger.Prelude.Int.{◌≤ℤ◌}
use nonprofit_ledger.Schema.{Db}
use nonprofit_ledger.Exec.{Conn, Result, ok, err, query, statement}
use nonprofit_ledger.Auth.Session.{SessionManager}
use nonprofit_ledger.Auth.Middleware.{CurrentUser, Web, Handler}
use nonprofit_ledger.Auth.Password.{Crypto, hash_password}
use nonprofit_ledger.Users.{list_users}
use nonprofit_ledger.Ledger.Totals.{debits, credits}
use nonprofit_ledger.Ledger.Totals.Balanced.{max_int64}
use nonprofit_ledger.Ledger.Balances.{trial_balance}
use nonprofit_ledger.Ledger.Books.History.{Step, post, lock, add_user, change_role, dismiss}
use nonprofit_ledger.Api.Http.{
  Request, CreateUserRequest, LockPeriodRequest, PostJournalEntryRequest, Json, Response,
}
use nonprofit_ledger.Api.Session.{health_handler, login_handler, logout_handler, end_session}
use nonprofit_ledger.Api.Session.Login.{login_handler_lem}
use nonprofit_ledger.Api.Users.{
  parse_user_id_from_path, list_users_handler, create_hashed, create_user_handler,
  update_role_handler, deactivate_user_handler,
}
use nonprofit_ledger.Api.Ledger.{
  entry_by, post_as, lock_as, trial_balance_handler, lock_period_handler,
  post_journal_entry_handler,
}
use nonprofit_ledger.Disk.{Listing}
use nonprofit_ledger.Api.Backup.{backup_status_handler}
use nonprofit_ledger.Api.Routes.{}

-- The totals of the entry of a request, if there is one in it, fit an int64.
abbrev pub FitsRequest : Json → Request → Type 0
FitsRequest json r =
    All (λ req. (debits req.lines ≤ℤ max_int64) × (credits req.lines ≤ℤ max_int64))
      (elim (json.post_journal_entry r.body) [ none ↦ [] | some req ↦ req ∷ [] ])

-- One call of a writing function, or none.
abbrev pub IsOneStep : Db → Db → Type 0
IsOneStep before after = (after ≡ before) ⊎ Step before after

module _ (sm : SessionManager) where
  -- A handler that does so, whoever calls it.
  abbrev pub IsSingle : Handler sm Response → Type 0
  IsSingle handler =
      (cu : Option CurrentUser) (w : Web sm) → IsOneStep w.state.db (handler cu w).1.state.db

  module _ (conn : Conn) (json : Json) (r : Request) where
    post_as-IsSingle :
        (req : PostJournalEntryRequest)
        → (debits req.lines ≤ℤ max_int64) × (credits req.lines ≤ℤ max_int64)
        → IsSingle (post_as sm conn json req)
    post_as-IsSingle req fit none w = inl refl
    post_as-IsSingle req fit (some cu) w =
        inr (post conn (entry_by sm conn json req cu) w.state fit)

    pub post-IsSingle : FitsRequest json r → IsSingle (post_journal_entry_handler sm conn json r)
    unfolding post_journal_entry_handler
    post-IsSingle fit cu w = elim (Option-cases (json.post_journal_entry r.body)) [
      | inl unread ↦ rw unread (inl refl)
      | inr (req, read) ↦ rw read (post_as-IsSingle req (rw read at fit).0 cu w)
    ]

    lock_as-IsSingle : (req : LockPeriodRequest) → IsSingle (lock_as sm conn json req)
    lock_as-IsSingle req none w = inl refl
    lock_as-IsSingle req (some cu) w = inr (lock conn req.through_date cu.id w.state)

    pub lock-IsSingle : IsSingle (lock_period_handler sm conn json r)
    unfolding lock_period_handler
    lock-IsSingle cu w = elim (Option-cases (json.lock_period r.body)) [
      | inl unread ↦ rw unread (inl refl)
      | inr (req, read) ↦ rw read (elim (Bool-cases (req.through_date == "")) [
        | inl blank ↦ rw blank (inl refl)
        | inr given ↦ rw given (lock_as-IsSingle req cu w)
      ])
    ]

    create_hashed-IsSingle :
        (crypto : Crypto) (req : CreateUserRequest) (hash : Result String) (w : Web sm)
        → IsOneStep w.state.db (create_hashed sm conn json crypto req hash w).1.state.db
    create_hashed-IsSingle crypto req (err e) w = inl refl
    create_hashed-IsSingle crypto req (ok hash) w =
        inr (add_user conn req.username hash req.role w.state)

    pub create-IsSingle :
        (crypto : Crypto) (salt : Option (List ℕ))
        → IsSingle (create_user_handler sm conn json crypto salt r)
    unfolding create_user_handler
    create-IsSingle crypto salt cu w = elim (Option-cases (json.create_user r.body)) [
      | inl unread ↦ rw unread (inl refl)
      | inr (req, read) ↦
          rw read
            (elim (Bool-cases (req.username == "" || (req.password == "" || req.role == ""))) [
              | inl blank ↦ rw blank (inl refl)
              | inr given ↦
                  rw given
                    (create_hashed-IsSingle crypto req (hash_password crypto salt req.password) w)
            ])
    ]

  pub role-IsSingle : (json : Json) (r : Request) → IsSingle (update_role_handler sm json r)
  unfolding update_role_handler
  role-IsSingle json r cu w = elim (Option-cases (parse_user_id_from_path r.path "/role")) [
    | inl bad ↦ rw bad (inl refl)
    | inr (id, parsed) ↦ rw parsed (elim (Option-cases (json.update_role r.body)) [
      | inl unread ↦ rw unread (inl refl)
      | inr (req, read) ↦ rw read (inr (change_role id req.role w.state))
    ])
  ]

  pub dismiss-IsSingle : (r : Request) → IsSingle (deactivate_user_handler sm r)
  unfolding deactivate_user_handler
  dismiss-IsSingle r cu w = elim (Option-cases (parse_user_id_from_path r.path "/deactivate")) [
    | inl bad ↦ rw bad (inl refl)
    | inr (id, parsed) ↦ rw parsed (inr (dismiss id w.state))
  ]

  pub trial_balance-IsSingle : IsSingle (trial_balance_handler sm)
  unfolding trial_balance_handler trial_balance statement
  trial_balance-IsSingle cu w = inl (ground arith)

  pub list-IsSingle : IsSingle (list_users_handler sm)
  unfolding list_users_handler list_users query statement
  list-IsSingle cu w = inl (ground arith)

  pub backup-IsSingle : (listing : Listing) → IsSingle (backup_status_handler sm listing)
  unfolding backup_status_handler query statement
  backup-IsSingle listing cu w = inl (ground arith)

  pub health-IsSingle : IsSingle (health_handler sm)
  unfolding health_handler
  health-IsSingle cu w = inl refl

  end_session-db :
      (json : Json) (crypto : Crypto) (ended : Option sm.Session) (w : Web sm)
      → (end_session json crypto sm ended w).1.state.db ≡ w.state.db
  end_session-db json crypto none w = refl
  end_session-db json crypto (some ended) w = refl

  pub logout-IsSingle : (json : Json) (crypto : Crypto) → IsSingle (logout_handler json crypto sm)
  unfolding logout_handler
  logout-IsSingle json crypto cu w = inl (end_session-db json crypto (sm.destroy w.session) w)

  pub login-IsSingle :
      (json : Json) (crypto : Crypto) (r : Request) → IsSingle (login_handler json crypto sm r)
  unfolding login_handler
  login-IsSingle json crypto r cu w = elim (Option-cases (json.login r.body)) [
    | inl unread ↦ rw unread (inl refl)
    | inr (req, read) ↦ inl (login_handler_lem json crypto sm r cu w read).1
  ]
