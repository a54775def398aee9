-- ===== src/Examples.antt =====
-- Concrete runs: each theorem with hypotheses is applied where they hold.
pub mod Cells
pub mod Queues
pub mod Log
pub mod Memory
pub mod Slots
pub mod Appends
pub mod Formats
pub mod Compactions
pub mod Requests
