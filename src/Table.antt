-- ===== src/Table.antt =====
-- internal/db/table/resources.go and the status words of internal/repo/task_repo/tasks.go:
-- the rows that the task repository keeps.
pub mod Status
pub mod Rows
pub mod ResourceStatus
