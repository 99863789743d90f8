-- ===== src/Henan/Bound.antt =====
-- scripts/verify_henan_e2e.py: how many requests a run makes.
use atlasmirror.Prelude.{ℕ, zero, suc, ◌+◌, ◌*◌, ◌≤◌, arith, Text, length}
use atlasmirror.Hashing.{Hashes}
use atlasmirror.Host.{
  Host, History, FilePath, exists, http_get, http_retrieve, local_pbf, retrieved, shell,
  daemon_status, read_text, upload_event,
}
use atlasmirror.Host.Costs.{
  Costs, Costs-perform, Costs-pure, Costs-raise, Costs-or_raise, Costs-lift, Costs-if, Costs-le,
  Costs-assert, Costs-bind, ◌⊕◌, Costs-ask, Costs-when,
}
use atlasmirror.Steps.Laws.{run_local-Costs, size_of-Costs, event_in-Costs, hash_file-Costs}
use atlasmirror.Henan.Upload.{
  md5_url, pbf_url, fetch_published, retrieve_pbf, fetch_pbf, check_pbf, wait_daemon, start_storage,
  remove_if_there, cid_now, wait_cid, cid_by_size, upload_file,
}
use atlasmirror.Henan.Download.{wait_download, download_file, check_copy, stop_storage}
use atlasmirror.Henan.Verify.{
  deploy, register_henan, query_registry, write_summary, publish, verify_henan,
}

module _ (host : Host) where
  fetch_published-Costs : Costs 1 (fetch_published host)
  unfolding fetch_published
  fetch_published-Costs =
      Costs-bind (Costs-perform host (http_get md5_url))
        λ found. Costs-bind (Costs-or_raise _ found) λ bytes. Costs-lift _

  retrieve_pbf-Costs : Costs 1 (retrieve_pbf host)
  unfolding retrieve_pbf
  retrieve_pbf-Costs =
      Costs-bind (Costs-perform host (http_retrieve pbf_url local_pbf))
        λ done. Costs-if done (Costs-pure tt) (Costs-raise _)

  fetch_pbf-Costs : Costs 3 (fetch_pbf host)
  unfolding fetch_pbf
  fetch_pbf-Costs = Costs-bind (Costs-perform host (exists local_pbf)) λ there.
      Costs-bind
        (Costs-if _ (Costs-pure _) (Costs-bind (size_of-Costs host _) λ size. Costs-pure _))
        λ missing. Costs-when missing retrieve_pbf-Costs

  check_pbf-Costs : (published : Text) → Costs 3 (check_pbf host published)
  unfolding check_pbf
  check_pbf-Costs published =
      Costs-bind (hash_file-Costs host _)
        λ file. Costs-assert _ ⊕ Costs-ask host _ ⊕ Costs-ask host _ ⊕ Costs-pure file

  wait_daemon-Costs : (n : ℕ) → Costs (n * 2) (wait_daemon host n)
  unfolding wait_daemon
  wait_daemon-Costs zero = Costs-pure tt
  wait_daemon-Costs (suc n) = Costs-le (omega arith) (
      Costs-bind (Costs-perform host (shell daemon_status))
        λ r. Costs-if _ (Costs-pure tt) (Costs-ask host _ ⊕ wait_daemon-Costs n))

  start_storage-Costs : Costs 42 (start_storage host)
  unfolding start_storage
  start_storage-Costs =
      Costs-ask host _
      ⊕ Costs-ask host _
      ⊕ Costs-ask host _
      ⊕ Costs-ask host _
      ⊕ Costs-ask host _
      ⊕ run_local-Costs host _
      ⊕ Costs-ask host _
      ⊕ wait_daemon-Costs 15
      ⊕ run_local-Costs host _
      ⊕ Costs-ask host _
      ⊕ run_local-Costs host _
      ⊕ run_local-Costs host _
      ⊕ Costs-ask host _

  remove_if_there-Costs : (p : FilePath) → Costs 2 (remove_if_there host p)
  unfolding remove_if_there
  remove_if_there-Costs p =
      Costs-bind (Costs-perform host (exists p)) λ there. Costs-when there (Costs-ask host _)

  cid_now-Costs : Costs 2 (cid_now host)
  unfolding cid_now
  cid_now-Costs = Costs-bind (size_of-Costs host _) λ size.
      Costs-if _
        (Costs-bind (Costs-perform host (read_text upload_event))
          λ found. Costs-bind (Costs-or_raise _ found) λ content. Costs-lift _)
        (Costs-pure _)

  wait_cid-Costs : (n : ℕ) → Costs (n * 3) (wait_cid host n)
  unfolding wait_cid
  wait_cid-Costs zero = Costs-pure _
  wait_cid-Costs (suc n) = Costs-le (omega arith) (
      Costs-bind cid_now-Costs
        λ cid. Costs-if _ (Costs-pure _) (Costs-ask host _ ⊕ wait_cid-Costs n))

  cid_by_size-Costs : (size : ℕ) → Costs 1 (cid_by_size host size)
  unfolding cid_by_size
  cid_by_size-Costs size = Costs-bind (run_local-Costs host _) (λ r. Costs-pure _)

  upload_file-Costs : (file : Hashes) → Costs 190 (upload_file host file)
  unfolding upload_file
  upload_file-Costs file =
      remove_if_there-Costs _
      ⊕ Costs-ask host _
      ⊕ Costs-ask host _
      ⊕ Costs-ask host _
      ⊕ Costs-bind (run_local-Costs host _) λ call. Costs-bind (wait_cid-Costs 60) λ seen.
        Costs-bind (Costs-if _ (cid_by_size-Costs _) (Costs-pure _)) λ cid.
          Costs-ask host _ ⊕ Costs-assert _ ⊕ Costs-ask host _ ⊕ Costs-ask host _ ⊕ Costs-pure cid

  wait_download-Costs : (n : ℕ) → Costs (n * 3) (wait_download host n)
  unfolding wait_download
  wait_download-Costs zero = Costs-pure tt
  wait_download-Costs (suc n) = Costs-le (omega arith) (
      Costs-bind (event_in-Costs host _ _)
        λ seen. Costs-if _ (Costs-pure tt) (Costs-ask host _ ⊕ wait_download-Costs n))

  download_file-Costs : (cid : Text) → Costs 189 (download_file host cid)
  unfolding download_file
  download_file-Costs cid =
      remove_if_there-Costs _
      ⊕ remove_if_there-Costs _
      ⊕ Costs-ask host _
      ⊕ Costs-ask host _
      ⊕ Costs-ask host _
      ⊕ run_local-Costs host _
      ⊕ wait_download-Costs 60
      ⊕ Costs-ask host _

  check_copy-Costs : (cid : Text) (file : Hashes) → Costs 4 (check_copy host cid file)
  unfolding check_copy
  check_copy-Costs cid file = Costs-bind (Costs-perform host (exists retrieved)) λ there.
      Costs-assert there
      ⊕ Costs-bind (hash_file-Costs host _) λ copy.
        Costs-assert _ ⊕ Costs-assert _ ⊕ Costs-assert _ ⊕ Costs-ask host _ ⊕ Costs-ask host _

  stop_storage-Costs : Costs 3 (stop_storage host)
  unfolding stop_storage
  stop_storage-Costs = Costs-ask host _ ⊕ Costs-ask host _ ⊕ Costs-ask host _

  deploy-Costs : Costs 2 (deploy host)
  unfolding deploy
  deploy-Costs = run_local-Costs host _ ⊕ run_local-Costs host _ ⊕ Costs-pure tt

  register_henan-Costs : (cid : Text) (file : Hashes) → Costs 3 (register_henan host cid file)
  unfolding register_henan
  register_henan-Costs cid file =
      Costs-bind (run_local-Costs host _) λ r. Costs-ask host _ ⊕ Costs-ask host _ ⊕ Costs-pure _

  query_registry-Costs : (cid : Text) (file : Hashes) → Costs 2 (query_registry host cid file)
  unfolding query_registry
  query_registry-Costs cid file =
      Costs-bind (run_local-Costs host _) λ q. Costs-assert _ ⊕ Costs-assert _ ⊕ Costs-ask host _

  publish-Costs : (cid : Text) (file : Hashes) → Costs 205 (publish host cid file)
  unfolding publish write_summary
  publish-Costs cid file =
      download_file-Costs cid
      ⊕ check_copy-Costs cid file
      ⊕ stop_storage-Costs
      ⊕ deploy-Costs
      ⊕ Costs-bind (register_henan-Costs cid file)
          λ receipt. query_registry-Costs cid file ⊕ Costs-ask host _ ⊕ Costs-ask host _

  verify_henan-Costs : Costs 444 (verify_henan host)
  unfolding verify_henan
  verify_henan-Costs = Costs-bind fetch_published-Costs λ published.
      fetch_pbf-Costs
      ⊕ Costs-bind (check_pbf-Costs published) λ file.
        start_storage-Costs ⊕ Costs-bind (upload_file-Costs file) λ cid. publish-Costs cid file

-- A run of verify_henan makes at most 444 requests, its sleeps included, whatever the world answers.
pub requests-verify_henan :
    (host : Host) (h : History) → length (verify_henan host h).1 ≤ length h + 444
requests-verify_henan host h = (verify_henan-Costs host).at h
