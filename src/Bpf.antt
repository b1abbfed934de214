-- ===== src/Bpf.antt =====
-- internal/bpf/loader.go: the maps through which the agent steers the BPF programs.
pub mod Maps
pub mod Manager
pub mod Programs
pub mod Protection
pub mod Filter
pub mod Lifecycle
pub mod Links
pub mod Hooks
pub mod Events
