-- ===== src/Region/Quiet.antt =====
-- Invariants of the history over the stages of scripts/process_one_region.py before the registration.
use atlasmirror.Prelude.{ℕ, zero, suc, ◌+◌, Text, codes, ◌||◌, true}
use atlasmirror.Strings.{includes}
use atlasmirror.Host.{Host, Remote, manifest_event, FilePath, History}
use atlasmirror.Host.Keeps.{
  Keeps, IsQuiet, keeps_rules, Keeps-if, Keeps-bind, Keeps-pure, ◌▸◌, Keeps-on_option,
}
use atlasmirror.Region.Fetch.{
  run_ssh, get_vps_manifests, fetch_published_md5, fetch_version, download_staging, stage_file,
  find_hosted, poll_cid, host_file,
}
use atlasmirror.Region.Retrieve.{
  get_spr, remove_if_there, wait_client, load_storage, start_client, size_now, event_seen,
  poll_event, fetch_manifest, watch_progress, look, wait_file, download_file, retrieve,
}

module _ (host : Host) {P : History → Type 0} (q : IsQuiet P) where
  pub run_ssh-Keeps : (c : Remote) → Keeps P (run_ssh host c)
  unfolding run_ssh
  run_ssh-Keeps c = search keeps_rules

  pub fetch_published_md5-Keeps : (url : Text) → Keeps P (fetch_published_md5 host url)
  unfolding fetch_published_md5
  fetch_published_md5-Keeps url = search (keeps_rules, run_ssh-Keeps)

  pub fetch_version-Keeps : (url : Text) → Keeps P (fetch_version host url)
  unfolding fetch_version
  fetch_version-Keeps url = search (keeps_rules, run_ssh-Keeps)

  download_staging-Keeps : (path url md5 : Text) → Keeps P (download_staging host path url md5)
  unfolding download_staging
  download_staging-Keeps path url md5 = search (keeps_rules, run_ssh-Keeps)

  pub stage_file-Keeps : (path url md5 : Text) → Keeps P (stage_file host path url md5)
  unfolding stage_file
  stage_file-Keeps path url md5 =
      search (keeps_rules, run_ssh-Keeps, download_staging-Keeps) depth 8

  find_hosted-Keeps : (name : Text) (size : ℕ) → Keeps P (find_hosted host name size)
  unfolding find_hosted get_vps_manifests
  find_hosted-Keeps name size = search keeps_rules depth 8

  poll_cid-Keeps : (n : ℕ) (name : Text) (size : ℕ) → Keeps P (poll_cid host n name size)
  unfolding poll_cid
  poll_cid-Keeps zero name size = search keeps_rules
  poll_cid-Keeps (suc n) name size = Keeps-bind _ _ (search keeps_rules) λ a.
      Keeps-bind _ _ (find_hosted-Keeps name size)
        λ m. Keeps-on_option m _ _ (poll_cid-Keeps n name size) (λ c. Keeps-pure _)

  pub host_file-Keeps : (path name : Text) (size : ℕ) → Keeps P (host_file host path name size)
  unfolding host_file
  host_file-Keeps path name size =
      search (keeps_rules, run_ssh-Keeps, find_hosted-Keeps, poll_cid-Keeps) depth 8

  get_spr-Keeps : Keeps P (get_spr host)
  unfolding get_spr
  get_spr-Keeps = search (keeps_rules, run_ssh-Keeps) depth 8

  remove_if_there-Keeps : (p : FilePath) → Keeps P (remove_if_there host p)
  unfolding remove_if_there
  remove_if_there-Keeps p = search keeps_rules

  wait_client-Keeps : (n : ℕ) → Keeps P (wait_client host n)
  unfolding wait_client
  wait_client-Keeps zero = search keeps_rules
  wait_client-Keeps (suc n) = Keeps-bind _ _ (search keeps_rules) λ there.
      Keeps-if there _ _ (Keeps-pure tt)
        (Keeps-bind _ _ (search keeps_rules) λ a. wait_client-Keeps n)

  load_storage-Keeps : (n : ℕ) → Keeps P (load_storage host n)
  unfolding load_storage
  load_storage-Keeps zero = search keeps_rules
  load_storage-Keeps (suc n) = Keeps-bind _ _ (search keeps_rules) λ r.
      Keeps-if
        (includes (codes "No client config") r.stdout
          || includes (codes "No client config") r.stderr)
        _ _ (Keeps-bind _ _ (search keeps_rules) λ a. load_storage-Keeps n) (Keeps-pure tt)

  start_client-Keeps : (node : Text) → Keeps P (start_client host node)
  unfolding start_client
  start_client-Keeps node =
      search keeps_rules
      ▸ search keeps_rules
      ▸ Keeps-bind _ _ (search keeps_rules) λ there.
        search keeps_rules
        ▸ search keeps_rules
        ▸ search keeps_rules
        ▸ search keeps_rules
        ▸ search keeps_rules
        ▸ wait_client-Keeps 30
        ▸ search keeps_rules
        ▸ load_storage-Keeps 5
        ▸ search keeps_rules

  size_now-Keeps : (p : FilePath) → Keeps P (size_now host p)
  unfolding size_now
  size_now-Keeps p = search keeps_rules

  event_seen-Keeps : (size : ℕ) → Keeps P (event_seen host size)
  unfolding event_seen
  event_seen-Keeps zero = search keeps_rules
  event_seen-Keeps (suc size) = search keeps_rules

  poll_event-Keeps : (n : ℕ) → Keeps P (poll_event host n)
  unfolding poll_event
  poll_event-Keeps zero = search keeps_rules
  poll_event-Keeps (suc n) = Keeps-bind _ _ (size_now-Keeps manifest_event) λ size.
      Keeps-bind _ _ (event_seen-Keeps size) λ seen.
        Keeps-if seen _ _ (Keeps-pure true)
          (Keeps-bind _ _ (search keeps_rules) λ a. poll_event-Keeps n)

  fetch_manifest-Keeps : (n : ℕ) (cid : Text) → Keeps P (fetch_manifest host n cid)
  unfolding fetch_manifest
  fetch_manifest-Keeps zero cid = search keeps_rules
  fetch_manifest-Keeps (suc n) cid =
      remove_if_there-Keeps manifest_event
      ▸ search keeps_rules
      ▸ search keeps_rules
      ▸ search keeps_rules
      ▸ search keeps_rules
      ▸ Keeps-bind _ _ (poll_event-Keeps 40) λ seen.
        search keeps_rules
        ▸ Keeps-if seen _ _ (Keeps-pure true) (search keeps_rules ▸ fetch_manifest-Keeps n cid)

  watch_progress-Keeps :
      (cid : Text) (size last_size last_time : ℕ)
      → Keeps P (watch_progress host cid size last_size last_time)
  unfolding watch_progress
  watch_progress-Keeps cid size last_size last_time = search keeps_rules depth 10

  look-Keeps :
      (cid : Text) (f_size sec last_size last_time : ℕ)
      → Keeps P (look host cid f_size sec last_size last_time)
  unfolding look
  look-Keeps cid f_size sec last_size last_time =
      search (keeps_rules, size_now-Keeps, watch_progress-Keeps) depth 10

  wait_file-Keeps :
      (n : ℕ) (cid : Text) (f_size sec last_size last_time : ℕ)
      → Keeps P (wait_file host n cid f_size sec last_size last_time)
  unfolding wait_file
  wait_file-Keeps zero cid f_size sec last_size last_time = search keeps_rules
  wait_file-Keeps (suc n) cid f_size sec last_size last_time =
      let ih = wait_file-Keeps n cid f_size (sec + 1) in
      search (keeps_rules, look-Keeps, ih) depth 10

  download_file-Keeps : (cid : Text) (f_size : ℕ) → Keeps P (download_file host cid f_size)
  unfolding download_file
  download_file-Keeps cid f_size = search (keeps_rules, wait_file-Keeps) depth 10

  pub retrieve-Keeps : (n : ℕ) (cid : Text) (f_size : ℕ) → Keeps P (retrieve host n cid f_size)
  unfolding retrieve
  retrieve-Keeps zero cid f_size = search keeps_rules
  retrieve-Keeps (suc n) cid f_size = Keeps-bind _ _ get_spr-Keeps λ node.
      start_client-Keeps node
      ▸ Keeps-bind _ _ (fetch_manifest-Keeps 9 cid) λ ok.
        Keeps-bind _ _ (search (keeps_rules, download_file-Keeps))
          λ complete. Keeps-if complete _ _ (Keeps-pure true) (retrieve-Keeps n cid f_size)
