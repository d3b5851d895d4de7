-- ===== src/Audit.antt =====
-- server/audit/audit.go
use nonprofit_ledger.Prelude.{
  ℕ, ⊤, String, ◌&&◌, not, contains, if◌then◌else◌, [], ◌∷◌, ◌++◌, ◌==◌, ◌≡◌, arith,
}
use nonprofit_ledger.Schema.{Db, AuditRow, user_ids, audit_ids}
use nonprofit_ledger.Exec.{
  State, ok, Conn, Exec, Outcome, done, fail, foreign_key_failed, action_empty, entity_type_empty,
  statement, raise_if, ◌>>=◌, ◌>>◌,
}

module _ (conn : Conn) where
  abbrev pub audit_row : ℕ → String → String → ℕ → String → Db → AuditRow
  audit_row actor_user_id action entity_type entity_id detail db = record {
    id = conn.row_id (audit_ids db);
    actor_user_id = actor_user_id;
    action = action;
    entity_type = entity_type;
    entity_id = entity_id;
    detail = detail;
    occurred_at = conn.datetime_now;
  }

  -- INSERT INTO audit_log; the actor references a user
  unfoldable pub insert_audit : ℕ → String → String → ℕ → String → Db → Outcome ⊤
  insert_audit actor_user_id action entity_type entity_id detail db =
      if conn.foreign_keys && not (contains actor_user_id (user_ids db))
      then fail foreign_key_failed
      else done tt (record db {
        audit_log =
            db.audit_log ++ audit_row actor_user_id action entity_type entity_id detail db ∷ [];
      })

  unfoldable pub write : ℕ → String → String → ℕ → String → Exec ⊤
  unfolding insert_audit
  write actor_user_id action entity_type entity_id detail = do
    raise_if (action == "") action_empty
    raise_if (entity_type == "") entity_type_empty
    statement (insert_audit actor_user_id action entity_type entity_id detail)

  -- A row that was written names an action and an entity, and is the only thing written.
  pub write-eq-ok :
      (actor_user_id : ℕ) (action entity_type : String) (entity_id : ℕ) (detail : String)
      (s : State) {t : State}
      → write actor_user_id action entity_type entity_id detail s ≡ (ok tt, t)
      → t.db ≡ record s.db {
        audit_log =
            s.db.audit_log ++ audit_row actor_user_id action entity_type entity_id detail s.db ∷ [];
      }
  unfolding write ◌>>=◌ statement
  write-eq-ok actor_user_id action entity_type entity_id detail s h = ground arith
