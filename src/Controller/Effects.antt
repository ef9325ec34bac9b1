-- ===== src/Controller/Effects.antt =====
-- What the handlers do to the cluster, branch by branch.
pub mod Addresses
pub mod Assigned
pub mod Labels
pub mod Panics
pub mod Worker
pub mod Purging
pub mod Owners
pub mod Services
pub mod Subnets
pub mod Handlers
