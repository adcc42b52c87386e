-- ===== src/Llm.antt =====
-- backend/src/llm: model calls under a budget, with a ledger and fallback models.
pub mod Period
pub mod Usage
pub mod Budget
pub mod Errors
pub mod Router
mod Tests
