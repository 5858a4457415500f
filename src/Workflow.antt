-- ===== src/Workflow.antt =====
-- crates/vbuff-core/src/workflow: boards, queues, collectors, baskets and selections.
pub mod Board
pub mod Router
pub mod Queue
pub mod Collector
pub mod Basket
pub mod Checklist
pub mod NamedSlots
pub mod Selection
mod Examples
