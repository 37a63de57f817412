-- ===== src/Audit.antt =====
-- portal/audit.py, `record_event`: the append-only audit log. The row's other columns (the actor's
-- email, the target, the address and the details) are not modelled, and the database takes the row.
use claude_pwa_portal.Base.{ℕ, String, Option, none, some}
use claude_pwa_portal.Base.Table.{insert}
use claude_pwa_portal.Models.{User, AuditEvent, Db}

abbrev actor_id : Option User → Option ℕ
actor_id none = none
actor_id (some actor) = some actor.id

unfoldable pub record_event : Option User → String → Db → Db
record_event actor action db =
    let row : AuditEvent = record { actor_user_id = actor_id actor; action = action } in
    record db { audit = insert row db.audit }
