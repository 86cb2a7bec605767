-- ===== src/Runtime.antt =====
-- workflow/runtime.go: the operations of the runtime, over any store.
pub mod Fixtures
pub mod Base
pub mod Advance
pub mod Finish
pub mod Run
pub mod Commands
pub mod Typed
