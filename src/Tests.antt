-- ===== src/Tests.antt =====
-- Runs of the modelled code at concrete inputs, with a kernel whose maps are association lists.
pub mod Maps
pub mod Scene
mod Refusal
mod Delivery
mod Identity
pub mod Policy
mod Provenance
mod Pods
mod Shim
mod Kernel
mod Interleaving
mod Boot
mod Ready
mod Socket
