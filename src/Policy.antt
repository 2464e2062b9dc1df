-- ===== src/Policy.antt =====
-- pkg/policy: validation, the policy manager and the policy reconciler.
pub mod Validate
pub mod Manager
mod Tests
pub mod Controller
