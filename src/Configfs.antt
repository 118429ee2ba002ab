-- ===== src/Configfs.antt =====
-- group/dlm_controld/action.c, group/dlm_controld/member_cman.c and group/dlm_controld/config.c: the
-- nodes of the cluster and of each lockspace, as the kernel sees them in configfs.
pub mod Files
pub mod Weight
pub mod Nodes
pub mod Members
pub mod Cleanup
pub mod Loops
pub mod Rounds
pub mod Synced
pub mod Memory
mod Examples
