-- ===== src/AiGateway.antt =====
-- The AI gateway (apps/api/src/customers_manager_hub/ai_gateway.py): a task is tried over the routes
-- of its profile, each up to its number of attempts, and every try leaves a trace.
pub mod State
pub mod Registry
pub mod Execute
pub mod Requests
