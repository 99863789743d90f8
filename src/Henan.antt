-- ===== src/Henan.antt =====
-- scripts/verify_henan_e2e.py. The command lines stand in `Host`; what is printed is left out.
mod Upload
mod Download
mod Verify
mod Quiet
mod Backed
mod Stages
mod Checks
mod Verified
mod Bound
mod Examples
