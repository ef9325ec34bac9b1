-- ===== src/Controller/Uniqueness.antt =====
-- The addresses of the macvlanips of a subnet over whole runs of the controller.
pub mod Hosts
pub mod Lists
pub mod Server
pub mod Rest
pub mod Losing
pub mod Handler
pub mod Left
pub mod Modes
pub mod Runs
