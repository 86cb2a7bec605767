-- ===== src/Sql/PrimaryKeys/Kept.antt =====
-- Every writing method of persistence/internal/sqlstore/store.go keeps the primary keys of the tables.
use fsm_go.Prelude.{List, [], ◌∷◌, All}
use fsm_go.World.{Env, World}
use fsm_go.Sql.Database.{Database}
use fsm_go.Sql.Rows.{Tables, instance_row}
use fsm_go.Sql.Requests.{Request, create, update, complete, serve_all}
use fsm_go.Sql.Keeps.Requests.{StatementsKeep, Allows, serve_all-Keeps}
use fsm_go.Sql.PrimaryKeys.{
  HasPrimaryKeys, add_instance_row-keys, add_task_row-keys, add_history_row-keys, add_key_row-keys,
  add_outbox_row-keys, update_instance_row-keys, claim_row-keys, complete_row-keys,
  publish_row-keys,
}

module _ ⦃env : Env⦄ ⦃db : Database⦄ where
  statements-keys : StatementsKeep HasPrimaryKeys
  statements-keys = record {
    add_history = add_history_row-keys;
    add_task = add_task_row-keys;
    add_outbox = add_outbox_row-keys;
    add_key = add_key_row-keys;
    claim = claim_row-keys;
    publish = publish_row-keys;
  }

  All-Allows : (requests : List Request) → All (Allows HasPrimaryKeys) requests
  All-Allows [] = tt
  All-Allows (create req ∷ rest) =
      (λ fields. add_instance_row-keys (instance_row req.instance fields), All-Allows rest)
  All-Allows (update req ∷ rest) = (
    λ fields. update_instance_row-keys req.instance fields req.expected_revision,
    All-Allows rest,
  )
  All-Allows (complete req ∷ rest) =
      (λ input output. complete_row-keys req.task input output, All-Allows rest)
  All-Allows (_ ∷ rest) = (tt, All-Allows rest)

  -- Whatever is asked for and whatever the database answers, failures and lost answers included, no two rows of
  -- a table have one primary key, if none had before.
  pub serve_all-HasPrimaryKeys :
      (requests : List Request) (w : World Tables)
      → HasPrimaryKeys w.store
      → HasPrimaryKeys (serve_all requests w).store
  serve_all-HasPrimaryKeys requests w =
      serve_all-Keeps statements-keys requests w (All-Allows requests)
