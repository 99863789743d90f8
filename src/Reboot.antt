-- ===== src/Reboot.antt =====
-- scripts/verify_reboot_survival.py. The command lines stand in `Host`; what is printed is left out.
pub mod Node
pub mod Client
mod Verify
pub mod Quiet
pub mod Story
mod Stages
mod Copied
mod Survives
mod Liveness
pub mod Bound
mod Examples
