-- ===== src/PluginTasks.antt =====
-- internal/repo/plugin_repo/tasks.go: the durable queue of plugin tasks, over the table
-- `plugin_tasks`. The database is always there, and one statement is one step; what a function
-- reads before it writes is read from a state of its own, `early`.
pub mod Rows
pub mod Adding
pub mod Claiming
pub mod Ending
pub mod Listing
pub mod Moves
pub mod Steps
pub mod Invariant
pub mod Once
pub mod Delays
pub mod Failing
pub mod Attempts
pub mod Examples
