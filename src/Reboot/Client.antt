-- ===== src/Reboot/Client.antt =====
-- scripts/verify_reboot_survival.py, step 5: the retrieval by a client on this machine.
use atlasmirror.Prelude.{
  ℕ, zero, suc, Text, codes, text_eq, Bool, true, false, ◌==◌, if◌then◌else◌, Option, none, some,
}
use atlasmirror.Json.{Json}
use atlasmirror.Hashing.{Hashes}
use atlasmirror.Host.{
  Host, shell, kill_all, reset_client, start_daemon, load_module, init_module, start_module,
  stop_module, stop_daemon, download_manifest, download_to, manifest_event, download_event,
  retrieved, write_node_config, touch, watch, kill_watch, exists, unlink, sleep_ms, Io, pure,
  assert, when, ask, perform, ◌>>=◌, ◌>>◌,
}
use atlasmirror.Steps.{run_local, size_of, event_in, hash_file}
use atlasmirror.Reboot.Node.{expected_cid}

abbrev pub expected_size : ℕ
expected_size = 49157919

abbrev pub expected_md5 : Text
expected_md5 = codes "0055ebfc7f14585c56d53a88062d5814"

abbrev pub expected_sha256 : Text
expected_sha256 = codes "4522a8a6f8ff1e25a269e760f12cc97dff804f288cb449319b3c2065d1d53c46"

module _ (host : Host) where
  -- The client's node, with a bootstrap node or without one.
  unfoldable pub start_client : Option Json → Io (Unit {0})
  start_client bootstrap = do
    run_local host reset_client
    ask host (write_node_config bootstrap)
    run_local host start_daemon
    ask host (sleep_ms 2000)
    run_local host load_module
    run_local host init_module
    run_local host start_module
    ask host (sleep_ms 2000)

  unfoldable pub request_manifest : Io (Unit {0})
  request_manifest = do
    ask host (touch manifest_event)
    ask host (watch manifest_event)
    ask host (sleep_ms 1000)
    run_local host (download_manifest expected_cid)
    pure tt

  -- the loops over `range(25)` and `range(60)`
  unfoldable pub wait_manifest : ℕ → Io Bool
  wait_manifest zero = pure false
  wait_manifest (suc n) = do
    seen ← event_in host manifest_event (codes "storageDownloadManifestDone")
    if seen then pure true else do ask host (sleep_ms 1000); wait_manifest n

  -- the commands that stop the client, with check=False
  unfoldable pub stop_client : Io (Unit {0})
  stop_client = do
    ask host (shell stop_module)
    ask host (shell stop_daemon)
    ask host (shell kill_all)

  -- phase A: is the manifest found without the node's SPR?
  unfoldable pub ambient_discovery : Io Bool
  ambient_discovery = do
    ask host (shell kill_all)
    ask host (sleep_ms 1000)
    start_client none
    request_manifest
    success ← wait_manifest 25
    ask host (kill_watch manifest_event)
    stop_client
    ask host (sleep_ms 1000)
    pure success

  -- phase B
  unfoldable pub fetch_manifest : Json → Io (Unit {0})
  fetch_manifest spr = do
    start_client (some spr)
    request_manifest
    manifest_ok ← wait_manifest 60
    ask host (kill_watch manifest_event)
    assert manifest_ok

  -- Has the file that is there the size?
  unfoldable pub has_size : Io Bool
  has_size = do
    there ← perform host (exists retrieved)
    if there then (do size ← size_of host retrieved; pure (size == expected_size)) else pure false

  -- the loop over `range(400)`; `download_ok` is not used after it
  unfoldable pub wait_download : ℕ → Io (Unit {0})
  wait_download zero = pure tt
  wait_download (suc n) = do
    complete ← has_size
    if complete then pure tt else do
      seen ← event_in host download_event (codes "storageDownloadDone")
      if seen then pure tt else do ask host (sleep_ms 1000); wait_download n

  unfoldable pub download_file : Io (Unit {0})
  download_file = do
    there ← perform host (exists retrieved)
    when there (ask host (unlink retrieved))
    ask host (touch download_event)
    ask host (watch download_event)
    ask host (sleep_ms 1000)
    run_local host (download_to expected_cid)
    wait_download 400
    ask host (kill_watch download_event)

  unfoldable pub check_file : Io Hashes
  check_file = do
    there ← perform host (exists retrieved)
    assert there
    file ← hash_file host retrieved
    assert (file.size == expected_size)
    assert (text_eq file.md5 expected_md5)
    assert (text_eq file.sha256 expected_sha256)
    pure file
