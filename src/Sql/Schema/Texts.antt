-- ===== src/Sql/Schema/Texts.antt =====
-- The texts of `Schema` in persistence/mysql/schema.go and persistence/postgres/schema.go, and the packages' `InitSchema`
-- in their files store.go.
use fsm_go.Prelude.{String, append, List, [], ◌∷◌}
use fsm_go.Errors.{Result}
use fsm_go.World.{Act}
use fsm_go.Sql.Database.{Database}
use fsm_go.Sql.Schema.{init_schema}

-- the lines, each with its end
abbrev pub text_of_lines : List String → String
text_of_lines [] = ""
text_of_lines (line ∷ lines) = append line (append "\n" (text_of_lines lines))

unfoldable pub mysql_schema : String
mysql_schema = append "\n" (
    text_of_lines (
      "CREATE TABLE IF NOT EXISTS workflow_instance (" ∷ "    id VARCHAR(128) NOT NULL PRIMARY KEY,"
      ∷ "    workflow VARCHAR(128) NOT NULL," ∷ "    version VARCHAR(64) NOT NULL,"
      ∷ "    state VARCHAR(128) NOT NULL," ∷ "    status VARCHAR(32) NOT NULL,"
      ∷ "    revision BIGINT NOT NULL," ∷ "    data JSON NULL,"
      ∷ "    started_at DATETIME(3) NOT NULL," ∷ "    updated_at DATETIME(3) NOT NULL,"
      ∷ "    finished_at DATETIME(3) NULL,"
      ∷ "    KEY idx_workflow_instance_workflow_state (workflow, state),"
      ∷ "    KEY idx_workflow_instance_status (status)" ∷ ") ENGINE=InnoDB DEFAULT CHARSET=utf8mb4;"
      ∷ "" ∷ "CREATE TABLE IF NOT EXISTS workflow_task ("
      ∷ "    id VARCHAR(128) NOT NULL PRIMARY KEY," ∷ "    instance_id VARCHAR(128) NOT NULL,"
      ∷ "    task VARCHAR(128) NOT NULL," ∷ "    handler VARCHAR(128) NOT NULL,"
      ∷ "    status VARCHAR(32) NOT NULL," ∷ "    attempt INT NOT NULL,"
      ∷ "    max_attempts INT NOT NULL," ∷ "    next_run_at DATETIME(3) NOT NULL,"
      ∷ "    timeout_at DATETIME(3) NULL," ∷ "    last_error TEXT NULL," ∷ "    input JSON NULL,"
      ∷ "    output JSON NULL," ∷ "    created_at DATETIME(3) NOT NULL,"
      ∷ "    updated_at DATETIME(3) NOT NULL,"
      ∷ "    KEY idx_workflow_task_due (status, next_run_at),"
      ∷ "    KEY idx_workflow_task_instance (instance_id)"
      ∷ ") ENGINE=InnoDB DEFAULT CHARSET=utf8mb4;" ∷ ""
      ∷ "CREATE TABLE IF NOT EXISTS workflow_history ("
      ∷ "    id VARCHAR(128) NOT NULL PRIMARY KEY," ∷ "    instance_id VARCHAR(128) NOT NULL,"
      ∷ "    type VARCHAR(64) NOT NULL," ∷ "    message VARCHAR(512) NOT NULL,"
      ∷ "    state VARCHAR(128) NOT NULL," ∷ "    task_id VARCHAR(128) NULL,"
      ∷ "    task VARCHAR(128) NULL," ∷ "    event VARCHAR(128) NULL," ∷ "    payload JSON NULL,"
      ∷ "    created_at DATETIME(3) NOT NULL,"
      ∷ "    KEY idx_workflow_history_instance (instance_id, created_at)"
      ∷ ") ENGINE=InnoDB DEFAULT CHARSET=utf8mb4;" ∷ ""
      ∷ "CREATE TABLE IF NOT EXISTS workflow_idempotency (" ∷ "    scope VARCHAR(128) NOT NULL,"
      ∷ "    idem_key VARCHAR(256) NOT NULL," ∷ "    result_id VARCHAR(128) NOT NULL,"
      ∷ "    created_at DATETIME(3) NOT NULL," ∷ "    PRIMARY KEY (scope, idem_key)"
      ∷ ") ENGINE=InnoDB DEFAULT CHARSET=utf8mb4;" ∷ ""
      ∷ "CREATE TABLE IF NOT EXISTS workflow_outbox (" ∷ "    id VARCHAR(128) NOT NULL PRIMARY KEY,"
      ∷ "    topic VARCHAR(128) NOT NULL," ∷ "    msg_key VARCHAR(256) NOT NULL,"
      ∷ "    payload JSON NOT NULL," ∷ "    status VARCHAR(32) NOT NULL,"
      ∷ "    attempt INT NOT NULL," ∷ "    next_run_at DATETIME(3) NOT NULL,"
      ∷ "    created_at DATETIME(3) NOT NULL," ∷ "    updated_at DATETIME(3) NOT NULL,"
      ∷ "    KEY idx_workflow_outbox_due (status, next_run_at)"
      ∷ ") ENGINE=InnoDB DEFAULT CHARSET=utf8mb4;" ∷ []))

unfoldable pub postgres_schema : String
postgres_schema = append "\n" (
    text_of_lines (
      "CREATE TABLE IF NOT EXISTS workflow_instance (" ∷ "    id TEXT PRIMARY KEY,"
      ∷ "    workflow TEXT NOT NULL," ∷ "    version TEXT NOT NULL," ∷ "    state TEXT NOT NULL,"
      ∷ "    status TEXT NOT NULL," ∷ "    revision BIGINT NOT NULL," ∷ "    data JSONB,"
      ∷ "    started_at TIMESTAMPTZ NOT NULL," ∷ "    updated_at TIMESTAMPTZ NOT NULL,"
      ∷ "    finished_at TIMESTAMPTZ" ∷ ");"
      ∷ "CREATE INDEX IF NOT EXISTS idx_workflow_instance_workflow_state ON workflow_instance (workflow, state);"
      ∷ "CREATE INDEX IF NOT EXISTS idx_workflow_instance_status ON workflow_instance (status);"
      ∷ "" ∷ "CREATE TABLE IF NOT EXISTS workflow_task (" ∷ "    id TEXT PRIMARY KEY,"
      ∷ "    instance_id TEXT NOT NULL," ∷ "    task TEXT NOT NULL," ∷ "    handler TEXT NOT NULL,"
      ∷ "    status TEXT NOT NULL," ∷ "    attempt INT NOT NULL," ∷ "    max_attempts INT NOT NULL,"
      ∷ "    next_run_at TIMESTAMPTZ NOT NULL," ∷ "    timeout_at TIMESTAMPTZ,"
      ∷ "    last_error TEXT," ∷ "    input JSONB," ∷ "    output JSONB,"
      ∷ "    created_at TIMESTAMPTZ NOT NULL," ∷ "    updated_at TIMESTAMPTZ NOT NULL" ∷ ");"
      ∷ "CREATE INDEX IF NOT EXISTS idx_workflow_task_due ON workflow_task (status, next_run_at);"
      ∷ "CREATE INDEX IF NOT EXISTS idx_workflow_task_instance ON workflow_task (instance_id);" ∷ ""
      ∷ "CREATE TABLE IF NOT EXISTS workflow_history (" ∷ "    id TEXT PRIMARY KEY,"
      ∷ "    instance_id TEXT NOT NULL," ∷ "    type TEXT NOT NULL," ∷ "    message TEXT NOT NULL,"
      ∷ "    state TEXT NOT NULL," ∷ "    task_id TEXT," ∷ "    task TEXT," ∷ "    event TEXT,"
      ∷ "    payload JSONB," ∷ "    created_at TIMESTAMPTZ NOT NULL" ∷ ");"
      ∷ "CREATE INDEX IF NOT EXISTS idx_workflow_history_instance ON workflow_history (instance_id, created_at);"
      ∷ "" ∷ "CREATE TABLE IF NOT EXISTS workflow_idempotency (" ∷ "    scope TEXT NOT NULL,"
      ∷ "    idem_key TEXT NOT NULL," ∷ "    result_id TEXT NOT NULL,"
      ∷ "    created_at TIMESTAMPTZ NOT NULL," ∷ "    PRIMARY KEY (scope, idem_key)" ∷ ");" ∷ ""
      ∷ "CREATE TABLE IF NOT EXISTS workflow_outbox (" ∷ "    id TEXT PRIMARY KEY,"
      ∷ "    topic TEXT NOT NULL," ∷ "    msg_key TEXT NOT NULL," ∷ "    payload JSONB NOT NULL,"
      ∷ "    status TEXT NOT NULL," ∷ "    attempt INT NOT NULL,"
      ∷ "    next_run_at TIMESTAMPTZ NOT NULL," ∷ "    created_at TIMESTAMPTZ NOT NULL,"
      ∷ "    updated_at TIMESTAMPTZ NOT NULL" ∷ ");"
      ∷ "CREATE INDEX IF NOT EXISTS idx_workflow_outbox_due ON workflow_outbox (status, next_run_at);"
      ∷ []))

module _ {S : Type 0} ⦃db : Database⦄ (carry_out : String → S → Result (Unit {0}) × S) where
  -- `InitSchema` of the package mysql
  abbrev pub init_mysql : Act S (Unit {0})
  init_mysql = init_schema carry_out mysql_schema

  -- `InitSchema` of the package postgres
  abbrev pub init_postgres : Act S (Unit {0})
  init_postgres = init_schema carry_out postgres_schema
