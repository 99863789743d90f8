-- ===== src/Region/Retrieve.antt =====
-- scripts/process_one_region.py, step 4: the retrieval through an independent client.
use atlasmirror.Prelude.{
  ℕ, zero, suc, ◌+◌, ◌/◌, ◌%◌, max, Text, codes, text_eq, Bool, true, false, not, ◌&&◌, ◌||◌,
  Option, none, some, List, [], ◌∷◌, ltb, ◌==◌, if◌then◌else◌,
}
use atlasmirror.Outcome.{Error, io_error, zero_division_error}
use atlasmirror.Strings.{splitlines, includes}
use atlasmirror.Storage.{is_spr_line, spr_of, manifest_done}
use atlasmirror.Host.{
  Host, spr, shell, kill_all, remove_client, start_daemon, load_module, init_module, start_module,
  download_manifest, download_to, FilePath, client_dir, client_config, daemon_config,
  manifest_event, retrieved, sleep_ms, exists, stat_size, read_text, touch, unlink, make_dirs,
  write_config, clock_ms, watch, kill_watch, Io, pure, raise, or_raise, assert, lift, on_option,
  when, ask, perform, ◌>>=◌, ◌>>◌,
}
use atlasmirror.Region.Fetch.{run_ssh}

-- the first line that passes the test
pub spr_line : List Text → Option Text
spr_line [] = none
spr_line (line ∷ lines) = if is_spr_line line then some line else spr_line lines

module _ (host : Host) where
  -- `spr` is None, or the value of the line that is found; the assertion wants it not empty.
  unfoldable pub get_spr : Io Text
  get_spr = do
    r ← run_ssh host spr
    line ← or_raise Error.assertion_error (spr_line (splitlines r.stdout))
    node ← lift (spr_of line)
    assert (not (text_eq node []))
    pure node

  -- if p.exists(): p.unlink()
  unfoldable pub remove_if_there : FilePath → Io (Unit {0})
  remove_if_there p = do there ← perform host (exists p); when there (ask host (unlink p))

  -- for _ in range(n): if client_cfg.exists(): break
  unfoldable pub wait_client : ℕ → Io (Unit {0})
  wait_client zero = pure tt
  wait_client (suc n) = do
    there ← perform host (exists client_config)
    if there then pure tt else do ask host (sleep_ms 500); wait_client n

  unfoldable pub load_storage : ℕ → Io (Unit {0})
  load_storage zero = pure tt
  load_storage (suc n) = do
    r ← perform host (shell load_module)
    if includes (codes "No client config") r.stdout || includes (codes "No client config") r.stderr
        then (do ask host (sleep_ms 1000); load_storage n)
        else pure tt

  unfoldable pub start_client : Text → Io (Unit {0})
  start_client node = do
    ask host (shell kill_all)
    ask host (sleep_ms 1000)
    there ← perform host (exists client_dir)
    when there (ask host (shell remove_client))
    ask host (make_dirs client_config)
    ask host (make_dirs daemon_config)
    ask host (write_config node)
    ask host (shell start_daemon)
    wait_client 30
    ask host (sleep_ms 1500)
    load_storage 5
    ask host (shell init_module)
    ask host (shell start_module)
    ask host (sleep_ms 12000)

  -- p.stat().st_size
  unfoldable pub size_now : FilePath → Io ℕ
  size_now p = do s ← perform host (stat_size p); or_raise io_error s

  unfoldable pub event_seen : ℕ → Io Bool
  event_seen zero = pure false
  event_seen (suc size) = do
    text ← perform host (read_text manifest_event)
    pure (elim text [ none ↦ false | some t ↦ manifest_done t ])

  -- the loop over `range(40)`: did the event come?
  unfoldable pub poll_event : ℕ → Io Bool
  poll_event zero = pure false
  poll_event (suc n) = do
    size ← size_now manifest_event
    seen ← event_seen size
    if seen then pure true else do ask host (sleep_ms 1000); poll_event n

  -- the loop over `range(1, 10)`
  unfoldable pub fetch_manifest : ℕ → Text → Io Bool
  fetch_manifest zero cid = pure false
  fetch_manifest (suc n) cid = do
    remove_if_there manifest_event
    ask host (touch manifest_event)
    ask host (watch manifest_event)
    ask host (sleep_ms 1000)
    ask host (shell (download_manifest cid))
    seen ← poll_event 40
    ask host (kill_watch manifest_event)
    if seen then pure true else do ask host (sleep_ms 6000); fetch_manifest n cid

  -- `last_sz` and `last_progress_time` after a look at a file that is not complete
  unfoldable pub watch_progress : Text → ℕ → ℕ → ℕ → Io (ℕ × ℕ)
  watch_progress cid size last_size last_time =
      if ltb last_size size then (do now ← perform host clock_ms; pure (size, now)) else (do
        now ← perform host clock_ms
        if ltb (last_time + 120000) now && not (size == 0)
            then (do
              ask host (shell (download_to cid))
              again ← perform host clock_ms
              pure (last_size, again + 60000))
            else pure (last_size, last_time))

  -- One round of the wait: is the file complete? If not, the two variables.
  unfoldable pub look : Text → ℕ → ℕ → ℕ → ℕ → Io (Option (ℕ × ℕ))
  look cid f_size sec last_size last_time = do
    there ← perform host (exists retrieved)
    if not there then pure (some (last_size, last_time)) else do
      size ← size_now retrieved
      if size == f_size then pure none else do
        p ← watch_progress cid size last_size last_time
        when (sec % 10 == 0 && f_size == 0) (raise zero_division_error)
        pure (some p)

  -- for sec in range(max_wait_secs)
  unfoldable pub wait_file : ℕ → Text → ℕ → ℕ → ℕ → ℕ → Io Bool
  wait_file zero cid f_size sec last_size last_time = pure false
  wait_file (suc n) cid f_size sec last_size last_time = do
    p ← look cid f_size sec last_size last_time
    on_option p (pure true)
        (λ (size, time). do ask host (sleep_ms 1000); wait_file n cid f_size (sec + 1) size time)

  abbrev max_wait_secs : ℕ → ℕ
  max_wait_secs f_size = max 1200 (f_size / 100000)

  unfoldable pub download_file : Text → ℕ → Io Bool
  download_file cid f_size = do
    ask host (shell (download_to cid))
    now ← perform host clock_ms
    complete ← wait_file (max_wait_secs f_size) cid f_size 0 0 now
    ask host (shell kill_all)
    pure complete

  -- the loop over `range(1, 4)`: was the download a success?
  unfoldable pub retrieve : ℕ → Text → ℕ → Io Bool
  retrieve zero cid f_size = pure false
  retrieve (suc n) cid f_size = do
    node ← get_spr
    start_client node
    manifest_ok ← fetch_manifest 9 cid
    complete ←
        (if manifest_ok then download_file cid f_size else do ask host (shell kill_all); pure false)
    if complete then pure true else retrieve n cid f_size
