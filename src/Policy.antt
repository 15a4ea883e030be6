-- ===== src/Policy.antt =====
-- The policy of a tenant (apps/api/src/customers_manager_hub/policy_runtime.py).
mod Tests
pub mod Hours
pub mod Normalize
pub mod Engine
pub mod Decide
pub mod Tools
