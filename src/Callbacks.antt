-- ===== src/Callbacks.antt =====
-- src/callbacks.hpp: the callbacks that the OpenMP runtime calls, over the state of the tool. A
-- callback is one step here; `Dependences` has the finer steps of a list of depend clauses.
pub mod State
pub mod Handlers
pub mod Events
pub mod Memory
pub mod Consistent
pub mod Creation
pub mod FirstTask
pub mod Preserves
pub mod Invariant
pub mod Counted
pub mod Counts
pub mod Counting
pub mod Untouched
pub mod Threads
pub mod Log
pub mod Examples
