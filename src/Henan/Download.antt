-- ===== src/Henan/Download.antt =====
-- scripts/verify_henan_e2e.py, step 6: the download by CID.
use atlasmirror.Prelude.{ℕ, zero, suc, Text, codes, text_eq, ◌==◌, if◌then◌else◌}
use atlasmirror.Hashing.{Hashes}
use atlasmirror.Host.{
  Host, shell, stop_module, destroy_module, stop_daemon, download_to, download_event, retrieved,
  write_log, download_log, touch, watch, kill_watch, exists, sleep_ms, clock_ms, Io, pure, assert,
  ask, perform, ◌>>=◌, ◌>>◌,
}
use atlasmirror.Steps.{run_local, event_in, hash_file}
use atlasmirror.Henan.Upload.{remove_if_there}

module _ (host : Host) where
  -- the loop over `range(60)`; whether the event came is not asked after it
  unfoldable pub wait_download : ℕ → Io (Unit {0})
  wait_download zero = pure tt
  wait_download (suc n) = do
    seen ← event_in host download_event (codes "storageDownloadDone")
    if seen then pure tt else do ask host (sleep_ms 1000); wait_download n

  unfoldable pub download_file : Text → Io (Unit {0})
  download_file cid = do
    remove_if_there host retrieved
    remove_if_there host download_event
    ask host (touch download_event)
    ask host (watch download_event)
    ask host (sleep_ms 1000)
    run_local host (download_to cid)
    wait_download 60
    ask host (kill_watch download_event)

  unfoldable pub check_copy : Text → Hashes → Io (Unit {0})
  check_copy cid file = do
    there ← perform host (exists retrieved)
    assert there
    copy ← hash_file host retrieved
    assert (copy.size == file.size)
    assert (text_eq copy.sha256 file.sha256)
    assert (text_eq copy.md5 file.md5)
    ask host clock_ms
    ask host (write_log (download_log cid file copy))

  unfoldable pub stop_storage : Io (Unit {0})
  stop_storage = do
    ask host (shell stop_module)
    ask host (shell destroy_module)
    ask host (shell stop_daemon)
