-- ===== src/Coverage/Retrieve.antt =====
-- scripts/run_a1_coverage.py, step 4: the retrieval through an independent client.
use atlasmirror.Prelude.{
  ℕ, zero, suc, ◌+◌, ◌/◌, max, Text, text_eq, Bool, true, false, not, ◌&&◌, ◌||◌, Option, none,
  some, List, [], ◌∷◌, ltb, ◌==◌, if◌then◌else◌,
}
use atlasmirror.Strings.{splitlines}
use atlasmirror.Json.{loads}
use atlasmirror.Storage.{event_flag}
use atlasmirror.Hashing.{Hashes}
use atlasmirror.Host.{
  Host, shell, restart, remove, kill_all, remove_client, start_daemon, load_module, init_module,
  start_module, stop_module, stop_daemon, download_manifest, download_to, FilePath, client_dir,
  client_config, daemon_config, manifest_event, download_event, retrieved, sleep_ms, exists,
  read_text, touch, make_dirs, write_config, clock_ms, watch, kill_watch, Io, pure, assert,
  on_option, when, ask, perform, ◌>>=◌, ◌>>◌,
}
use atlasmirror.Region.{staging_file, size_now, remove_if_there}
use atlasmirror.Coverage.Remote.{run_ssh, get_vps_spr}
use atlasmirror.Coverage.Stage.{hashes_of}

-- for line in …splitlines(): the first event with a flag decides, and an exception ends the scan.
pub event_lines : List Text → Bool
event_lines [] = false
event_lines (line ∷ lines) = elim (loads line) [
  | none ↦ false
  | some ev ↦ elim (event_flag ev) [
    | none ↦ false
    | some (some success) ↦ success
    | some none ↦ event_lines lines
  ]
]

module _ (host : Host) where
  -- for _ in range(n): is the daemon ready?
  unfoldable pub wait_daemon : ℕ → Io Bool
  wait_daemon zero = pure false
  wait_daemon (suc n) = do
    there ← perform host (exists client_config)
    if there then pure true else do ask host (sleep_ms 500); wait_daemon n

  unfoldable pub start_client : Text → Io Bool
  start_client node = do
    ask host (shell kill_all)
    ask host (sleep_ms 2000)
    there ← perform host (exists client_dir)
    when there (ask host (shell remove_client))
    ask host (make_dirs client_config)
    ask host (make_dirs daemon_config)
    ask host (write_config node)
    ask host (shell start_daemon)
    wait_daemon 20

  unfoldable pub start_storage : Io (Unit {0})
  start_storage = do
    ask host (sleep_ms 1000)
    ask host (shell load_module)
    ask host (shell init_module)
    ask host (shell start_module)
    ask host (sleep_ms 12000)

  unfoldable pub event_seen : ℕ → Io Bool
  event_seen zero = pure false
  event_seen (suc size) = do
    text ← perform host (read_text manifest_event)
    pure (elim text [ none ↦ false | some t ↦ event_lines (splitlines t) ])

  -- the loop over `range(45)`
  unfoldable pub poll_event : ℕ → Io Bool
  poll_event zero = pure false
  poll_event (suc n) = do
    size ← size_now host manifest_event
    seen ← event_seen size
    if seen then pure true else do ask host (sleep_ms 1000); poll_event n

  -- a fresh event file and a watch that writes to it
  unfoldable pub watch_events : FilePath → Io (Unit {0})
  watch_events path = do
    remove_if_there host path
    ask host (touch path)
    ask host (watch path)
    ask host (sleep_ms 1000)

  -- the loop over `range(5)`
  unfoldable pub fetch_manifest : ℕ → Text → Io Bool
  fetch_manifest zero cid = pure false
  fetch_manifest (suc n) cid = do
    watch_events manifest_event
    ask host (shell (download_manifest cid))
    seen ← poll_event 45
    ask host (kill_watch manifest_event)
    ask host (sleep_ms 1000)
    if seen then pure true else do ask host (sleep_ms 10000); fetch_manifest n cid

  -- `last_progress_size` and `last_progress_time` after a look, or `none` for a stall
  unfoldable pub progress : ℕ → ℕ → ℕ → Io (Option (ℕ × ℕ))
  progress size last_size last_time =
      if ltb last_size size then (do now ← perform host clock_ms; pure (some (size, now))) else (do
        now ← perform host clock_ms
        if ltb (last_time + 180000) now && ltb 0 size
            then pure none
            else pure (some (last_size, last_time)))

  -- One round of the wait: the two variables, or `none` at its end, and whether the file is complete.
  unfoldable pub look : ℕ → ℕ → ℕ → Io (Option (ℕ × ℕ) × Bool)
  look f_size last_size last_time = do
    there ← perform host (exists retrieved)
    if not there then pure (some (last_size, last_time), false) else do
      size ← size_now host retrieved
      if size == f_size
          then pure (none, true)
          else do p ← progress size last_size last_time; pure (p, false)

  -- for i in range(max_wait_seconds): is the file complete?
  unfoldable pub wait_file : ℕ → ℕ → ℕ → ℕ → Io Bool
  wait_file zero f_size last_size last_time = pure false
  wait_file (suc n) f_size last_size last_time = do
    (p, complete) ← look f_size last_size last_time
    on_option p (pure complete)
        (λ (size, time). do ask host (sleep_ms 1000); wait_file n f_size size time)

  -- int(f_size / (40 * 1024))
  abbrev max_wait_seconds : ℕ → ℕ
  max_wait_seconds f_size = max 1800 (f_size / 40960)

  -- Step 4b: `download_success` after it.
  unfoldable pub download_file : Text → ℕ → Bool → Io Bool
  download_file cid f_size success = do
    watch_events download_event
    ask host (shell (download_to cid))
    now ← perform host clock_ms
    complete ← wait_file (max_wait_seconds f_size) f_size 0 now
    ask host (kill_watch download_event)
    ask host (shell stop_module)
    ask host (shell stop_daemon)
    ask host (shell kill_all)
    pure (success || complete)

  -- download_success and retrieved_file.exists() and its size is f_size
  unfoldable pub is_complete : Bool → ℕ → Io Bool
  is_complete false f_size = pure false
  is_complete true f_size = do
    there ← perform host (exists retrieved)
    if not there then pure false else do size ← size_now host retrieved; pure (size == f_size)

  -- the loop over `range(1, 6)`
  unfoldable pub retrieve : ℕ → Text → ℕ → Bool → Io (Unit {0})
  retrieve zero cid f_size success = pure tt
  retrieve (suc n) cid f_size success = do
    node ← get_vps_spr host
    ready ← start_client node
    if not ready then retrieve n cid f_size success else do
      start_storage
      fetched ← fetch_manifest 5 cid
      if fetched
          then (do
            success' ← download_file cid f_size success
            complete ← is_complete success' f_size
            if complete then pure tt else retrieve n cid f_size success')
          else (do
            run_ssh host true (restart 0)
            ask host (sleep_ms 8000)
            retrieve n cid f_size success)

  -- the assertions on the retrieved file, and the clean-up
  unfoldable pub check_retrieved : Text → ℕ → Text → Io Hashes
  check_retrieved name f_size md5 = do
    there ← perform host (exists retrieved)
    assert there
    hashes ← hashes_of host retrieved
    assert (hashes.size == f_size)
    assert (text_eq hashes.md5 md5)
    remove_if_there host retrieved
    run_ssh host true (remove (staging_file name))
    pure hashes
