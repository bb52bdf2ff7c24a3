-- ===== src/Reconciler.antt =====
-- internal/reconciler/reconciler.go: the engine that the six controllers share. `Adapter` and `Calls`
-- hold its types, `Engine` its code, `Contract` what it relies on in an adapter; the other modules
-- are proofs.
pub mod Adapter
pub mod Calls
pub mod Engine
pub mod Contract
pub mod Logic
pub mod Scope
pub mod Rules
pub mod Traverse
pub mod Confinement
pub mod Replay
pub mod Kept
pub mod Progress
pub mod Cleanup
pub mod Mirror
pub mod Events
pub mod Gate
pub mod Release
pub mod Store
pub mod Keeping
pub mod Lasting
pub mod Orphans
pub mod Separate
pub mod Neighbours
pub mod Life
pub mod Plan
pub mod Planned
pub mod Asking
pub mod Follows
pub mod Repeats
pub mod Settling
pub mod Effects
pub mod Achieved
pub mod Resting
pub mod Fleet
pub mod Extras
