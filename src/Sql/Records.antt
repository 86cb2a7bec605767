-- ===== src/Sql/Records.antt =====
-- A record that is written to a row and read back (persistence/internal/sqlstore/store.go): the insertions'
-- arguments and the `scan` functions.
use fsm_go.Prelude.{
  String, ◌≡◌, refl, false, none, some, [], ◌==◌, eq_iff, Bool-cases, inl, inr, sym,
}
use fsm_go.Dict.{Dict}
use fsm_go.Errors.{Result, ok, err}
use fsm_go.Types.{
  Any, AnyMap, clone_map, Time, WorkflowInstance, TaskExecution, ExecutionHistory, OutboxMessage,
}
use fsm_go.Memory.{clone_instance, clone_task, clone_history, clone_outbox}
use fsm_go.Sql.Database.{Database}
use fsm_go.Sql.Rows.{
  null_string, string_of, time_of, marshal, unmarshal, null_time, instance_row, task_row,
  history_row, outbox_row, scan_instance, scan_task, scan_history, scan_outbox,
}

-- What is written to a JSON column is not empty, and can be read.
pub record IsCodec (db : Database) : Type 0 where
  pub back :
      (m : Dict Any) (raw : String)
      → db.encode m ≡ ok raw
      → (m' : Dict Any) × (db.decode raw ≡ ok (some m'))
  pub written : (m : Dict Any) (raw : String) → db.encode m ≡ ok raw → (raw == "") ≡ false

pub string_of-null_string : (s : String) → string_of (null_string s) ≡ s
string_of-null_string s = elim (Bool-cases (s == "")) [
  | inl e ↦ rw e (sym ((eq_iff s "").0 e))
  | inr e ↦ rw e refl
]

-- the instant that is read of one written to a column that may be NULL
abbrev pub kept_or_zero : ⦃db : Database⦄ → Time → Time
kept_or_zero value = time_of (null_time value)

-- what a result has, if it has a map
abbrev pub map_or : Dict Any → Result AnyMap → Dict Any
map_or m (ok (some m')) = m'
map_or m _ = m

module _ ⦃db : Database⦄ where
  abbrev pub decoded : Dict Any → Result String → Dict Any
  decoded m (ok raw) = map_or m (db.decode raw)
  decoded m (err _) = m

  -- the map that is read of one written to a JSON column: its keys sorted, say, and its numbers as floats
  abbrev pub kept_map : AnyMap → AnyMap
  kept_map none = some (decoded [] (db.encode []))
  kept_map (some m) = some (decoded m (db.encode m))

  -- the records with the instants and the maps that their rows keep
  abbrev pub kept_instance : WorkflowInstance → WorkflowInstance
  kept_instance i = record i {
    fields = kept_map i.fields;
    started_at = db.kept_time i.started_at;
    updated_at = db.kept_time i.updated_at;
    finished_at = kept_or_zero i.finished_at;
  }

  abbrev pub kept_task : TaskExecution → TaskExecution
  kept_task t = record t {
    input = kept_map t.input;
    output = kept_map t.output;
    next_run_at = db.kept_time t.next_run_at;
    timeout_at = kept_or_zero t.timeout_at;
    created_at = db.kept_time t.created_at;
    updated_at = db.kept_time t.updated_at;
  }

  abbrev pub kept_history : ExecutionHistory → ExecutionHistory
  kept_history h = record h { payload = kept_map h.payload; created_at = db.kept_time h.created_at }

  abbrev pub kept_outbox : OutboxMessage → OutboxMessage
  kept_outbox m = record m {
    payload = kept_map m.payload;
    next_run_at = db.kept_time m.next_run_at;
    created_at = db.kept_time m.created_at;
    updated_at = db.kept_time m.updated_at;
  }

  -- what is kept is a map, and its copy is the same
  pub clone_map-kept_map : (m : AnyMap) → clone_map (kept_map m) ≡ kept_map m
  clone_map-kept_map none = refl
  clone_map-kept_map (some m) = refl

  module _ (codec : IsCodec db) where
    pub unmarshal-marshal :
        (m : AnyMap) (raw : String) → marshal m ≡ ok raw → unmarshal (some raw) ≡ ok (kept_map m)
    unfolding marshal unmarshal
    unmarshal-marshal none raw h =
        let (m', read) = codec.back [] raw h in rw (codec.written [] raw h, h, read) refl
    unmarshal-marshal (some m) raw h =
        let (m', read) = codec.back m raw h in rw (codec.written m raw h, h, read) refl

    pub scan_instance-instance_row :
        (i : WorkflowInstance) (raw : String)
        → marshal i.fields ≡ ok raw
        → scan_instance (instance_row i raw) ≡ ok (clone_instance (kept_instance i))
    unfolding scan_instance
    scan_instance-instance_row i raw h =
        rw (unmarshal-marshal i.fields raw h, clone_map-kept_map) refl

    pub scan_task-task_row :
        (t : TaskExecution) (input output : String)
        → marshal t.input ≡ ok input
        → marshal t.output ≡ ok output
        → scan_task (task_row t input output) ≡ ok (clone_task (kept_task t))
    unfolding scan_task
    scan_task-task_row t input output h k =
        rw
          (
            unmarshal-marshal t.input input h,
            unmarshal-marshal t.output output k,
            string_of-null_string,
            clone_map-kept_map t.input,
            clone_map-kept_map t.output,
          )
          refl

    pub scan_history-history_row :
        (e : ExecutionHistory) (raw : String)
        → marshal e.payload ≡ ok raw
        → scan_history (history_row e raw) ≡ ok (clone_history (kept_history e))
    unfolding scan_history
    scan_history-history_row e raw h =
        rw
          (
            unmarshal-marshal e.payload raw h,
            string_of-null_string e.task_id,
            string_of-null_string e.task,
            string_of-null_string e.event,
            clone_map-kept_map e.payload,
          )
          refl

    pub scan_outbox-outbox_row :
        (m : OutboxMessage) (raw : String)
        → marshal m.payload ≡ ok raw
        → scan_outbox (outbox_row m raw) ≡ ok (clone_outbox (kept_outbox m))
    unfolding scan_outbox
    scan_outbox-outbox_row m raw h = rw (unmarshal-marshal m.payload raw h, clone_map-kept_map) refl
