-- ===== src/Lib.antt =====
-- A model of workflow-go, a workflow engine whose machines are compiled from declared states, events,
-- tasks and transitions, and whose runtime moves stored instances along them and runs their tasks.
--
-- The parts and their files:
--   Types            workflow/types.go and the message types of workflow/interfaces.go, a record for each
--                    struct; `Types.Values` has the values of `map[string]any` and `cloneMap` (workflow/id.go)
--   Errors           workflow/errors.go, and results that may be errors
--   World            what the code reads from outside: the runtime's clock, the system clock and the
--                    randomness of `NewID` (workflow/id.go), each a function of the number of readings before
--   Compiler         workflow/compiler.go: `Machine`, `transitionKey`, and `Compile` as `compile`, a function for
--                    each of its loops
--   Builder          workflow/builder.go, each call a function on the builder
--   Store            the `Store` interface of workflow/interfaces.go, as a record of operations
--   Memory           workflowtest/memory_store.go, an operation for each method, and `memory_store`, which
--                    fills the interface with them
--   Runtime.Base     workflow/runtime.go: `Runtime`, its registrations, `machine` and `handler`
--   Runtime.Advance  `scheduleTask`, `scheduleStateTasks` and `applyEvent`
--   Runtime.Finish   `finishTask`, a function for each way in which a task ends
--   Runtime.Run      `runTask` and `RunDueTasks`
--   Runtime.Commands `StartWorkflow`, `SignalWorkflow`, `GetWorkflow` and `ListHistory`
--   Runtime.Typed    workflow/typed.go
--   Mermaid          workflow/mermaid.go
--   Codegen          cmd/workflowgen/main.go: the specification, `exported` and `constants`; `Codegen.Render` has the
--                    template and `render`; the tables of Unicode beyond ASCII are a parameter
--   Sql              persistence/internal/sqlstore/store.go: `q`, and in its children the rest
--   Sql.Database     what the statements mean on lists of rows, the calls of the database, and `withTx`
--   Sql.Rows         the tables of persistence/mysql/schema.go and persistence/postgres/schema.go, and how records are
--                    written to rows and read from them
--   Sql.Writes       the methods that write; Sql.Reads those that read, and `sql_store`, which fills the interface
--   Sql.Schema       `InitSchema`, and the schemas of persistence/mysql and persistence/postgres
--   Kafka            messaging/kafka/kafka.go: `Publish`, `Consume` and `PublishOutbox`, over a writer and a reader of
--                    the client library that are parameters
-- Prelude and Dict hold what these share: Go's integers and maps. Fixtures and Runtime.Fixtures hold test
-- data, and a module Examples beside a part applies the part's theorems to them.
--
-- How the code is read. An operation takes a world (a store and the number of readings) and returns a
-- result, or an error, with the world after it. Go's `int` and `int64` are integers whose `++` wraps
-- around at 64 bits (`inc`); instants and durations are integers in nanoseconds, and the sum of an
-- instant and a duration does not wrap. A map is an association list with one entry for each key. Where
-- Go ranges over a map, the order is an argument (`RangeOrder`, `ScanOrder`), of which it is known only
-- that it permutes the entries. Every loop is a recursion on the list that the code goes through, so that
-- no bound on steps is needed; but the loop of `Consume`, which ends by an error only, takes a number of
-- rounds, for which one more than the messages that are pending is enough. The mutex of the memory store
-- makes each of its methods one step: what several workers do is a list of such steps (`Memory.Ops`),
-- which `Runtime.Commands.Races` puts between two steps of a signal. The runtime's methods themselves are
-- sequences of steps, and the handler of a task, which is the application's, may change the store in any
-- way. Contexts are left out: a handler is given the time that is left of its deadline, and cancellation
-- of a store call is not modelled. The memory store does not look at its context either.
--
-- The SQL store runs on a database that is a parameter (`Database`). Each call of it takes the next reading: it
-- works, or it is refused, or it is carried out and its answer is lost, so that the caller sees an error. A
-- statement means what its text says, on tables whose primary keys compare texts exactly; a transaction works
-- on the tables as they were when it began, and its commit puts them in place at once, so that transactions stand
-- one after another, in some order. An UPDATE reports the rows that it matched, or those that it changed, as the
-- database has it (`reports_changed`). Columns may keep an instant less precisely (`kept_time`), and what is
-- written to a JSON column may be read as another map (`kept_map`): its keys sorted, say, and its numbers as
-- floats; that it can be read is supposed where a theorem needs it (`IsCodec`). `Sql.Shown` says when tables hold
-- what a store in memory holds, and `Sql.Refinement` compares the methods of the two stores by it; `Sql.Progress`
-- supposes that the calls work (`IsSound`), and `Sql.Delivery` runs the runtime's starts and signals over the SQL
-- store. Limits on the length of texts, and statuses that are no status, are left out.
--
-- Not modelled: the YAML loader, the flags and files of cmd/workflowgen, scripts, examples and tests, and `NewStore`
-- of persistence/mysql and persistence/postgres, which chooses the dialect. `WithClock` is the choice of the
-- environment's clock.
pub mod Prelude
pub mod Dict
pub mod Types
pub mod Errors
pub mod World
pub mod Compiler
pub mod Builder
pub mod Mermaid
pub mod Codegen
pub mod Store
pub mod Memory
pub mod Runtime
pub mod Sql
pub mod Kafka
pub mod Fixtures
