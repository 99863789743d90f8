-- ===== src/Region.antt =====
-- scripts/process_one_region.py. The command lines stand in `Host`; what is printed is left out.
mod Fetch
mod Retrieve
mod Publish
mod Quiet
mod Gate
mod Gated
mod Submits
mod Updates
mod Refines
mod Distinct
mod Examples
unfoldable pub use Fetch.*
unfoldable pub use Retrieve.*
unfoldable pub use Publish.*
