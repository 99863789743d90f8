-- ===== src/Coverage.antt =====
-- scripts/run_a1_coverage.py. The command lines stand in `Host`; what is printed is left out.
mod Plan
mod Remote
mod Stage
mod Retrieve
mod Register
mod Assertions
mod Run
mod Covered
mod Quiet
mod QuietClient
mod Gate
mod Lost
mod Examples
mod Retries
