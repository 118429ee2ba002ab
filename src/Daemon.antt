-- ===== src/Daemon.antt =====
-- group/dlm_controld/main.c and group/dlm_controld/crc.c, with the calls to join and leave a group of
-- group/dlm_controld/cpg.c: the lockspaces, the registered file systems and the clients of the daemon.
pub mod Crc
pub mod Clients
pub mod Spaces
pub mod Requests
pub mod Slots
pub mod Consistent
pub mod Registered
pub mod Steps
pub mod Joined
pub mod Trace
pub mod Queries
mod Examples
