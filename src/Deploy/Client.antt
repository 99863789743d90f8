-- ===== src/Deploy/Client.antt =====
-- scripts/deploy_vps_storage.py, step 8, and `main`: the retrieval by an external client.
use atlasmirror.Prelude.{
  ℕ, zero, suc, Text, codes, text_eq, ltb, ◌==◌, if◌then◌else◌, Option, none, some,
}
use atlasmirror.Outcome.{Error, io_error}
use atlasmirror.Strings.{includes, strip}
use atlasmirror.Json.{Json}
use atlasmirror.Hashing.{Hashes}
use atlasmirror.Host.{
  Host, shell, reset_client, start_daemon, load_module, init_module, start_module, stop_daemon,
  download_to, FilePath, manifest_event, download_event, retrieved, write_node_config, write_log,
  public_log, touch, watch, kill_watch, exists, unlink, read_text, sleep_ms, clock_ms, Io, pure,
  on_option, or_raise, assert, when, ask, perform, ◌>>=◌, ◌>>◌,
}
use atlasmirror.Steps.{run_local, size_of, hash_file}
use atlasmirror.Reboot.Node.{expected_cid}
use atlasmirror.Reboot.Client.{expected_size, expected_md5, expected_sha256, request_manifest}
use atlasmirror.Deploy.Node.{install_node, start_storage, read_node, upload_dataset}

module _ (host : Host) where
  unfoldable pub start_external : Json → Io (Unit {0})
  start_external spr = do
    run_local host reset_client
    ask host (write_node_config (some spr))
    run_local host start_daemon
    ask host (sleep_ms 2000)
    run_local host load_module
    run_local host init_module
    run_local host start_module
    ask host (sleep_ms 3000)

  -- The event file's text, if it has the word.
  unfoldable pub event_text : FilePath → Text → Io (Option Text)
  event_text p word = do
    size ← size_of host p
    if ltb 0 size
        then (do
          found ← perform host (read_text p)
          content ← or_raise io_error found
          pure (if includes word content then some content else none))
        else pure none

  -- the loops over `range(45)` and `range(180)`
  unfoldable pub wait_event : ℕ → FilePath → Text → Io (Option Text)
  wait_event zero p word = pure none
  wait_event (suc n) p word = do
    seen ← event_text p word
    on_option seen (do ask host (sleep_ms 1000); wait_event n p word)
        (λ content. pure (some content))

  unfoldable pub fetch_manifest : Io Text
  fetch_manifest = do
    request_manifest host
    seen ← wait_event 45 manifest_event (codes "storageDownloadManifestDone")
    ask host (kill_watch manifest_event)
    or_raise Error.assertion_error seen

  unfoldable pub download_dataset : Io Text
  download_dataset = do
    there ← perform host (exists retrieved)
    when there (ask host (unlink retrieved))
    ask host (touch download_event)
    ask host (watch download_event)
    ask host (sleep_ms 1000)
    run_local host (download_to expected_cid)
    seen ← wait_event 180 download_event (codes "storageDownloadDone")
    ask host (kill_watch download_event)
    or_raise Error.assertion_error seen

  unfoldable pub check_dataset : Io Hashes
  check_dataset = do
    there ← perform host (exists retrieved)
    assert there
    file ← hash_file host retrieved
    assert (file.size == expected_size)
    assert (text_eq file.md5 expected_md5)
    assert (text_eq file.sha256 expected_sha256)
    pure file

  unfoldable pub prove_retrieval : Json → Json → Io (Unit {0})
  prove_retrieval peer spr = do
    start_external spr
    manifest ← fetch_manifest
    download ← download_dataset
    file ← check_dataset
    ask host (shell stop_daemon)
    ask host clock_ms
    ask host (write_log (public_log peer spr (strip manifest) (strip download) file))

  unfoldable pub deploy_storage : Io (Unit {0})
  deploy_storage = do
    install_node host
    start_storage host
    (peer, spr) ← read_node host
    upload_dataset host
    prove_retrieval peer spr
