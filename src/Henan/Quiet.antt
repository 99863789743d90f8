-- ===== src/Henan/Quiet.antt =====
-- scripts/verify_henan_e2e.py: invariants over the steps that publish nothing.
use atlasmirror.Prelude.{ℕ, zero, suc, Text, refl}
use atlasmirror.Host.{Host, History, FilePath}
use atlasmirror.Host.Keeps.{
  calm, Keeps, IsQuiet, keeps_rules, Keeps-bind, Keeps-if, Keeps-pure, ◌▸◌,
}
use atlasmirror.Steps.Laws.{run_local-Keeps, size_of-Keeps, event_in-Keeps}
use atlasmirror.Henan.Upload.{
  retrieve_pbf, fetch_pbf, wait_daemon, start_storage, remove_if_there, cid_now, wait_cid,
  cid_by_size,
}
use atlasmirror.Henan.Download.{wait_download, download_file, stop_storage}
use atlasmirror.Henan.Verify.{deploy}

module _ (host : Host) {P : History → Type 0} (q : IsQuiet P) where
  retrieve_pbf-Keeps : Keeps P (retrieve_pbf host)
  unfolding retrieve_pbf
  retrieve_pbf-Keeps = search keeps_rules

  pub fetch_pbf-Keeps : Keeps P (fetch_pbf host)
  unfolding fetch_pbf
  fetch_pbf-Keeps = search (keeps_rules, retrieve_pbf-Keeps, size_of-Keeps host (calm q)) depth 8

  wait_daemon-Keeps : (n : ℕ) → Keeps P (wait_daemon host n)
  unfolding wait_daemon
  wait_daemon-Keeps zero = Keeps-pure _
  wait_daemon-Keeps (suc n) =
      Keeps-bind _ _ (search keeps_rules)
        λ r. Keeps-if _ _ _ (Keeps-pure _) (search keeps_rules ▸ wait_daemon-Keeps n)

  pub start_storage-Keeps : Keeps P (start_storage host)
  unfolding start_storage
  start_storage-Keeps =
      search keeps_rules
      ▸ search keeps_rules
      ▸ search keeps_rules
      ▸ search keeps_rules
      ▸ search keeps_rules
      ▸ run_local-Keeps host (calm q) _ refl
      ▸ search keeps_rules
      ▸ wait_daemon-Keeps 15
      ▸ run_local-Keeps host (calm q) _ refl
      ▸ search keeps_rules
      ▸ run_local-Keeps host (calm q) _ refl
      ▸ run_local-Keeps host (calm q) _ refl
      ▸ search keeps_rules

  pub remove_if_there-Keeps : (p : FilePath) → Keeps P (remove_if_there host p)
  unfolding remove_if_there
  remove_if_there-Keeps p = search keeps_rules

  cid_now-Keeps : Keeps P (cid_now host)
  unfolding cid_now
  cid_now-Keeps = search (keeps_rules, size_of-Keeps host (calm q)) depth 8

  pub wait_cid-Keeps : (n : ℕ) → Keeps P (wait_cid host n)
  unfolding wait_cid
  wait_cid-Keeps zero = Keeps-pure _
  wait_cid-Keeps (suc n) =
      Keeps-bind _ _ cid_now-Keeps
        λ cid. Keeps-if _ _ _ (Keeps-pure _) (search keeps_rules ▸ wait_cid-Keeps n)

  pub cid_by_size-Keeps : (size : ℕ) → Keeps P (cid_by_size host size)
  unfolding cid_by_size
  cid_by_size-Keeps size = Keeps-bind _ _ (run_local-Keeps host (calm q) _ refl) (λ r. Keeps-pure _)

  wait_download-Keeps : (n : ℕ) → Keeps P (wait_download host n)
  unfolding wait_download
  wait_download-Keeps zero = Keeps-pure _
  wait_download-Keeps (suc n) =
      Keeps-bind _ _ (event_in-Keeps host (calm q) _ _)
        λ seen. Keeps-if _ _ _ (Keeps-pure _) (search keeps_rules ▸ wait_download-Keeps n)

  pub download_file-Keeps : (cid : Text) → Keeps P (download_file host cid)
  unfolding download_file
  download_file-Keeps cid =
      remove_if_there-Keeps _
      ▸ remove_if_there-Keeps _
      ▸ search keeps_rules
      ▸ search keeps_rules
      ▸ search keeps_rules
      ▸ run_local-Keeps host (calm q) _ refl
      ▸ wait_download-Keeps 60
      ▸ search keeps_rules

  pub stop_storage-Keeps : Keeps P (stop_storage host)
  unfolding stop_storage
  stop_storage-Keeps = search keeps_rules

  pub deploy-Keeps : Keeps P (deploy host)
  unfolding deploy
  deploy-Keeps =
      run_local-Keeps host (calm q) _ refl ▸ run_local-Keeps host (calm q) _ refl ▸ Keeps-pure tt
