-- ===== src/Controller.antt =====
-- The package controller.
pub mod Wiring
pub mod Hosts
pub mod Ipalloc
pub mod Service
pub mod Macvlanip
pub mod Subnet
pub mod Netattachdef
pub mod Purge
pub mod Queue
pub mod Setup
pub mod Allocation
pub mod Effects
pub mod Uniqueness
