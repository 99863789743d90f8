-- ===== src/Steps.antt =====
-- The steps that scripts/verify_reboot_survival.py and scripts/verify_henan_e2e.py share.
pub mod Laws
pub mod Backing
use atlasmirror.Prelude.{ℕ, Text, Bool, false, ltb, ◌==◌, if◌then◌else◌}
use atlasmirror.Outcome.{Error, io_error}
use atlasmirror.Strings.{includes}
use atlasmirror.Hashing.{Hashes, compute_hashes}
use atlasmirror.Host.{
  Host, Completed, Local, shell, FilePath, stat_size, read_text, read_bytes, Io, pure, raise,
  or_raise, perform, ◌>>=◌,
}

module _ (host : Host) where
  -- run_local(cmd)
  unfoldable pub run_local : Local → Io Completed
  run_local c = do
    r ← perform host (shell c)
    if r.returncode == 0 then pure r else raise (Error.exit r.returncode)

  -- p.stat().st_size
  unfoldable pub size_of : FilePath → Io ℕ
  size_of p = do s ← perform host (stat_size p); or_raise io_error s

  -- The event file is not empty and has the word.
  unfoldable pub event_in : FilePath → Text → Io Bool
  event_in p word = do
    size ← size_of p
    if ltb 0 size
        then (do
          found ← perform host (read_text p)
          text ← or_raise io_error found
          pure (includes word text))
        else pure false

  -- compute_hashes(file_path)
  unfoldable pub hash_file : FilePath → Io Hashes
  hash_file p = do
    found ← perform host (read_bytes p)
    bytes ← or_raise io_error found
    pure (compute_hashes host.md5 host.sha256 bytes)
