-- ===== src/Examples.antt =====
-- The theorems at concrete inputs, over a small cluster kept in lists.
pub mod Store
mod Ranges
mod Sets
mod Allocations
mod Handlers
mod Work
mod Clients
mod Multiple
mod Uniqueness
mod Rest
mod Assigned
mod Fakes
mod Informers
mod Signals
mod DeepCopies
mod Listers
mod Main
