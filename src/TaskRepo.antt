-- ===== src/TaskRepo.antt =====
-- internal/repo/task_repo: the durable queue of crawl tasks. `Store` is the database's state;
-- each other module is a group of operations, with the theorems about them below.
pub mod Summary
pub mod Store
pub mod Backoff
pub mod Claims
pub mod Outcome
pub mod Finish
pub mod Cancel
pub mod Budgets
pub mod Retry
pub mod Recovery
pub mod Create
pub mod Invariant
pub mod Steps
pub mod Evolution
pub mod History
pub mod Refusals
pub mod Fencing
pub mod Claiming
pub mod Rivals
pub mod Exclusion
pub mod Progress
pub mod Cancelling
pub mod Descent
pub mod Subtree
pub mod Settling
pub mod Finishing
pub mod Verdict
pub mod Admitting
pub mod Answering
pub mod Creating
pub mod Operations
pub mod Closing
pub mod Recovering
pub mod Examples
