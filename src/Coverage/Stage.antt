-- ===== src/Coverage/Stage.antt =====
-- scripts/run_a1_coverage.py: the download, its check, and the steps up to a CID on the VPS.
use atlasmirror.Prelude.{
  ℕ, zero, suc, ◌+◌, Text, text_eq, Bool, true, false, not, ◌&&◌, Option, none, some, List, [], ◌∷◌,
  ltb, leb, ◌==◌, if◌then◌else◌,
}
use atlasmirror.Outcome.{Error, io_error}
use atlasmirror.Strings.{strip, words, parse_int}
use atlasmirror.Json.{Json}
use atlasmirror.Storage.{find_candidate, cid_of}
use atlasmirror.Hashing.{Hashes, compute_hashes}
use atlasmirror.Host.{
  Host, staged_size, upload, block_count, FilePath, work_file, sleep_ms, exists, read_bytes, Io,
  pure, or_raise, assert, lift, on_option, ask, perform, ◌>>=◌, ◌>>◌,
}
use atlasmirror.Region.{staging_file, staging_filename, size_now}
use atlasmirror.Coverage.Remote.{run_ssh, run_scp, get_vps_manifests, download_file_with_retry}

pub last_word : List Text → Option Text
last_word [] = none
last_word (w ∷ []) = some w
last_word (v ∷ (w ∷ ws)) = last_word (w ∷ ws)

-- int(text) of what is there, or 0
pub int_or_0 : Option Text → ℕ
int_or_0 none = 0
int_or_0 (some t) = elim (parse_int t) [ none ↦ 0 | some n ↦ n ]

-- `if cid` of a candidate's CID
pub found_cid : Option Text → Option Text
found_cid none = none
found_cid (some c) = if text_eq c [] then none else some c

module _ (host : Host) where
  -- compute_hashes(path)
  unfoldable pub hashes_of : FilePath → Io Hashes
  hashes_of path = do
    found ← perform host (read_bytes path)
    bytes ← or_raise io_error found
    pure (compute_hashes host.md5 host.sha256 bytes)

  unfoldable pub fetch_pbf : Text → FilePath → Io Hashes
  fetch_pbf url path = do download_file_with_retry host 5 url path; hashes_of path

  -- path.exists() and path.stat().st_size > 0
  unfoldable pub has_bytes : FilePath → Io Bool
  has_bytes path = do
    there ← perform host (exists path)
    if not there then pure false else do size ← size_now host path; pure (ltb 0 size)

  -- step 2: the file's size, once its MD5 is the published one
  unfoldable pub verified_download : FilePath → Text → Text → Io ℕ
  verified_download path url md5 = do
    there ← has_bytes path
    hashes ←
        (if not there then fetch_pbf url path else do
          old ← hashes_of path
          if text_eq old.md5 md5 then pure old else fetch_pbf url path)
    assert (text_eq hashes.md5 md5)
    pure hashes.size

  -- the copy to the VPS, unless a file of that size is there
  unfoldable pub transfer : Text → ℕ → Io (Unit {0})
  transfer name f_size = do
    r ← run_ssh host true (staged_size (staging_file name))
    if int_or_0 (last_word (words (strip r.stdout))) == f_size
        then pure tt
        else do run_scp host (work_file name) (staging_file name); pure tt

  unfoldable pub find_hosted : Text → ℕ → Io (Option Json)
  find_hosted name f_size = do
    m ← get_vps_manifests host
    lift (find_candidate (staging_filename name) f_size m)

  -- the loop over `range(60)`
  unfoldable pub poll_cid : ℕ → Text → ℕ → Io (Option Text)
  poll_cid zero name f_size = pure none
  poll_cid (suc n) name f_size = do
    ask host (sleep_ms 3000)
    m ← find_hosted name f_size
    on_option m (poll_cid n name f_size) (λ c. pure (cid_of (some c)))

  -- cur_cnt == prev_cnt and cur_cnt > 0, where `prev_cnt` starts with -1
  pub is_same : ℕ → Option ℕ → Bool
  is_same cur none = false
  is_same cur (some prev) = cur == prev && ltb 0 cur

  -- the loop over `range(40)` that waits for three counts alike
  unfoldable pub wait_blocks : ℕ → Option ℕ → ℕ → Io (Unit {0})
  wait_blocks zero prev stable = pure tt
  wait_blocks (suc n) prev stable = do
    ask host (sleep_ms 3000)
    r ← run_ssh host true block_count
    let cur = int_or_0 (some (strip r.stdout))
    if not (is_same cur prev)
        then wait_blocks n (some cur) 0
        else if leb 3 (stable + 1)
        then pure tt
        else wait_blocks n prev (stable + 1)

  unfoldable pub upload_file : Text → ℕ → Io (Option Text)
  upload_file name f_size = do
    run_ssh host true (upload (staging_file name))
    cid ← poll_cid 60 name f_size
    wait_blocks 40 none 0
    pure cid

  -- step 3, with the assertion on `cid`
  unfoldable pub host_file : Text → ℕ → Io Text
  host_file name f_size = do
    m ← find_hosted name f_size
    cid ← on_option (found_cid (cid_of m)) (upload_file name f_size) (λ c. pure (some c))
    or_raise Error.assertion_error (found_cid cid)
