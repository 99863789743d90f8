-- ===== src/Henan/Upload.antt =====
-- scripts/verify_henan_e2e.py, steps 1 to 5: the published MD5, the file, and its CID.
use atlasmirror.Prelude.{
  ℕ, zero, suc, Text, codes, text_eq, lower, true, not, ltb, ◌==◌, if◌then◌else◌, none, some, List,
  [], ◌∷◌,
}
use atlasmirror.Outcome.{Result, ok, err, Error, http_error, index_error}
use atlasmirror.Strings.{strip, splitlines, includes, after, first_word}
use atlasmirror.Json.{Items, obj, arr, nil, cons, at}
use atlasmirror.Storage.{manifests_of, is_nat, cid_of}
use atlasmirror.Onchain.Utf8.{utf8_decode}
use atlasmirror.Hashing.{Hashes}
use atlasmirror.Host.{
  Host, shell, stop_module, destroy_module, stop_daemon, kill_all, start_daemon, daemon_status,
  load_module, init_module, start_module, upload_url, local_manifests, FilePath, local_pbf,
  upload_event, write_storage_config, write_log, geofabrik_log, upload_log, touch, watch,
  kill_watch, exists, unlink, read_text, http_get, http_retrieve, sleep_ms, clock_ms, Io, pure,
  raise, or_raise, assert, lift, when, ask, perform, ◌>>=◌, ◌>>◌,
}
use atlasmirror.Steps.{run_local, size_of, hash_file}

abbrev pub pbf_url : Text
pbf_url = codes "https://download.geofabrik.de/asia/china/henan-latest.osm.pbf"

abbrev pub md5_url : Text
md5_url = codes "https://download.geofabrik.de/asia/china/henan-latest.osm.pbf.md5"

-- req.read().decode("utf-8").strip().split()[0].lower()
unfoldable pub published_md5 : List ℕ → Result Text
published_md5 bytes = elim (utf8_decode bytes) [
  | err e ↦ err e
  | ok t ↦ elim (first_word (strip t)) [ none ↦ err index_error | some w ↦ ok (lower w) ]
]

-- line.split('"cid":')[1].split('"')[1]
cid_in_line : Text → Result Text
cid_in_line line = elim (after (codes "\"cid\":") line) [
  | none ↦ err index_error
  | some t ↦ elim (after (codes "\"") t) [ none ↦ err index_error | some cid ↦ ok cid ]
]

-- The first line that has a CID decides. The empty text stands for no CID as well.
pub cid_in_lines : List Text → Result Text
cid_in_lines [] = ok []
cid_in_lines (line ∷ lines) =
    if includes (codes "\"cid\":") line then cid_in_line line else cid_in_lines lines

-- The CID of the first manifest with the size; an exception on the way gives none.
cid_of_size : ℕ → Items → Text
cid_of_size size nil = []
cid_of_size size (cons (obj fs) xs) =
    if is_nat (at (codes "datasetSize") (obj fs)) size
    then elim (cid_of (some (obj fs))) [ none ↦ [] | some cid ↦ cid ]
    else cid_of_size size xs
cid_of_size size (cons x xs) = []

pub cid_in_manifests : ℕ → Text → Text
cid_in_manifests size stdout = elim (manifests_of stdout) [
  | some (arr xs) ↦ cid_of_size size xs
  | _ ↦ []
]

module _ (host : Host) where
  unfoldable pub fetch_published : Io Text
  fetch_published = do
    found ← perform host (http_get md5_url)
    bytes ← or_raise http_error found
    lift (published_md5 bytes)

  unfoldable pub retrieve_pbf : Io (Unit {0})
  retrieve_pbf = do
    done ← perform host (http_retrieve pbf_url local_pbf)
    if done then pure tt else raise http_error

  -- steps 1 and 2
  unfoldable pub fetch_pbf : Io (Unit {0})
  fetch_pbf = do
    there ← perform host (exists local_pbf)
    missing ← (if not there then pure true else do size ← size_of host local_pbf; pure (size == 0))
    when missing retrieve_pbf

  -- The clock gives the log's time.
  unfoldable pub check_pbf : Text → Io Hashes
  check_pbf published = do
    file ← hash_file host local_pbf
    assert (text_eq file.md5 published)
    ask host clock_ms
    ask host (write_log (geofabrik_log published file))
    pure file

  -- the loop over `range(15)`
  unfoldable pub wait_daemon : ℕ → Io (Unit {0})
  wait_daemon zero = pure tt
  wait_daemon (suc n) = do
    r ← perform host (shell daemon_status)
    if r.returncode == 0 then pure tt else do ask host (sleep_ms 1000); wait_daemon n

  unfoldable pub start_storage : Io (Unit {0})
  start_storage = do
    ask host (shell stop_module)
    ask host (shell destroy_module)
    ask host (shell stop_daemon)
    ask host (shell kill_all)
    ask host (sleep_ms 1000)
    run_local host start_daemon
    ask host (sleep_ms 2000)
    wait_daemon 15
    run_local host load_module
    ask host write_storage_config
    run_local host init_module
    run_local host start_module
    ask host (sleep_ms 2000)

  -- if p.exists(): p.unlink()
  unfoldable pub remove_if_there : FilePath → Io (Unit {0})
  remove_if_there p = do there ← perform host (exists p); when there (ask host (unlink p))

  -- the CID in the event file now
  unfoldable pub cid_now : Io Text
  cid_now = do
    size ← size_of host upload_event
    if ltb 0 size
        then (do
          found ← perform host (read_text upload_event)
          content ← or_raise Error.io_error found
          lift (cid_in_lines (splitlines content)))
        else pure []

  -- the loop over `range(60)`
  unfoldable pub wait_cid : ℕ → Io Text
  wait_cid zero = pure []
  wait_cid (suc n) = do
    cid ← cid_now
    if not (text_eq cid []) then pure cid else do ask host (sleep_ms 1000); wait_cid n

  unfoldable pub cid_by_size : ℕ → Io Text
  cid_by_size size = do r ← run_local host local_manifests; pure (cid_in_manifests size r.stdout)

  -- step 5 from the watch on
  unfoldable pub upload_file : Hashes → Io Text
  upload_file file = do
    remove_if_there upload_event
    ask host (touch upload_event)
    ask host (watch upload_event)
    ask host (sleep_ms 1000)
    call ← run_local host upload_url
    seen ← wait_cid 60
    cid ← (if text_eq seen [] then cid_by_size file.size else pure seen)
    ask host (kill_watch upload_event)
    assert (not (text_eq cid []))
    ask host clock_ms
    ask host (write_log (upload_log file cid (strip call.stdout)))
    pure cid
