-- ===== src/Deploy.antt =====
-- scripts/deploy_vps_storage.py. The command lines stand in `Host`; what is printed is left out.
mod Node
mod Client
mod Quiet
mod Backed
mod Proved
mod Bound
mod Examples
