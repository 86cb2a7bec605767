-- ===== src/Sql/Examples/Progress.antt =====
-- An update that succeeds, at the leave request.
use fsm_go.Prelude.{◌≡◌, refl, [], ◌∷◌}
use fsm_go.Dict.{lookup}
use fsm_go.Errors.{ok}
use fsm_go.Types.{OutboxMessage, UpdateInstanceRequest}
use fsm_go.World.{World}
use fsm_go.Sql.Rows.{Tables, marshal}
use fsm_go.Sql.Writes.{update_instance}
use fsm_go.Sql.Progress.{IsSound, CanAppend, CanWrite}
use fsm_go.Sql.Progress.Methods.{update_instance-succeeds}
use fsm_go.Sql.Fixtures.{
  sound, system, tables, world_of, waiting, mail, moved_on, tables-show, tables-HasPrimaryKeys,
}
use fsm_go.Fixtures.{instance_in}

abbrev named_mail : OutboxMessage
named_mail = record mail { id = "msg-1" }

abbrev with_mail : UpdateInstanceRequest
with_mail = record moved_on { outbox = named_mail ∷ [] }

sound-IsSound : IsSound sound
sound-IsSound n = refl

writes : CanWrite with_mail.instance.fields
unfolding marshal
writes = ("{paid:true;}", refl)

appends : CanAppend with_mail.history with_mail.tasks with_mail.outbox tables
unfolding marshal
appends = ((("{}", refl), tt), (refl, tt, tt), tt, tt, ((("{}", refl), refl), tt), (refl, tt, tt))

update_instance-succeeds_example :
    (v : World Tables) × (update_instance with_mail (world_of tables) ≡ (ok tt, v))
unfolding lookup
update_instance-succeeds_example =
    update_instance-succeeds sound-IsSound with_mail (world_of tables) waiting
      (instance_in "review") tables-show tables-HasPrimaryKeys refl refl refl writes appends
