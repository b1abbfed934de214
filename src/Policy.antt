-- ===== src/Policy.antt =====
-- internal/policy.go: the configuration, the policy and the bindings made from it.
pub mod Config
pub mod Sources
pub mod Manager
pub mod Servable
pub mod Modes
pub mod Bindings
pub mod Load
pub mod Loading
pub mod Targets
