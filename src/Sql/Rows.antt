-- ===== src/Sql/Rows.antt =====
-- The rows of the tables (persistence/mysql/schema.go, persistence/postgres/schema.go), and how a record is
-- written to a row and read from one.
pub mod Columns
pub mod Writing
pub mod Reading
pub use Columns.{InstanceRow, TaskRow, HistoryRow, KeyRow, OutboxRow, Tables}
pub use Writing.{null_string, null_time, instance_row, task_row, history_row, outbox_row}
unfoldable pub use Writing.{marshal}
pub use Reading.{string_of, time_of, scan_one}
unfoldable pub use Reading.{
  unmarshal, scan_instance, scan_task, scan_history, scan_outbox, scan_rows,
}
