-- ===== src/Coverage/Quiet.antt =====
-- Invariants of the history over the stages of scripts/run_a1_coverage.py up to a CID.
use atlasmirror.Prelude.{ℕ, zero, suc, ◌+◌, Text, Bool, true, false, refl, Option, none}
use atlasmirror.Host.{Host, Remote, ssh, scp, FilePath, History, Io, Completed}
use atlasmirror.Host.Keeps.{
  Keeps, IsQuiet, Keeps-pure, Keeps-or_raise, Keeps-bind, Keeps-if, Keeps-on_option, Keeps-lift,
  Keeps-perform, Keeps-assert, ◌▸◌, keeps_rules,
}
use atlasmirror.Region.{size_now, remove_if_there}
use atlasmirror.Coverage.Remote.{
  try_again, run_ssh, run_scp, spr_attempts, get_vps_spr, manifests_attempts, get_vps_manifests,
  fetch_md5, fetch_version, fetch_geofabrik_metadata, download_file_with_retry,
}
use atlasmirror.Coverage.Stage.{
  hashes_of, fetch_pbf, has_bytes, verified_download, transfer, find_hosted, poll_cid, wait_blocks,
  upload_file, host_file,
}

module _ (host : Host) {P : History → Type 0} (q : IsQuiet P) where
  try_again-Keeps :
      (n attempt : ℕ) (check : Bool) (send : Io Completed) (res : Completed)
      → Keeps P send
      → Keeps P (try_again host n attempt check send res)
  unfolding try_again
  try_again-Keeps zero attempt check send res k = search keeps_rules
  try_again-Keeps (suc n) attempt check send res k = Keeps-bind _ _ k λ r.
      Keeps-if _ _ _ (Keeps-pure r)
        (search keeps_rules ▸ try_again-Keeps n (attempt + 1) check send r k)

  pub run_ssh-Keeps : (check : Bool) (c : Remote) → Keeps P (run_ssh host check c)
  unfolding run_ssh
  run_ssh-Keeps check c = try_again-Keeps 20 0 check _ _ (Keeps-perform host (ssh c) q refl)

  run_scp-Keeps : (src : FilePath) (dst : Text) → Keeps P (run_scp host src dst)
  unfolding run_scp
  run_scp-Keeps src dst = try_again-Keeps 20 0 true _ _ (Keeps-perform host (scp src dst) q refl)

  spr_attempts-Keeps : (n : ℕ) → Keeps P (spr_attempts host n)
  unfolding spr_attempts
  spr_attempts-Keeps zero = search keeps_rules
  spr_attempts-Keeps (suc n) =
      Keeps-bind _ _ (run_ssh-Keeps false _) λ r.
        Keeps-on_option _ _ _ (run_ssh-Keeps false _ ▸ spr_attempts-Keeps n) (λ s. Keeps-pure s)

  pub get_vps_spr-Keeps : Keeps P (get_vps_spr host)
  unfolding get_vps_spr
  get_vps_spr-Keeps = spr_attempts-Keeps 3

  manifests_attempts-Keeps : (n : ℕ) → Keeps P (manifests_attempts host n)
  unfolding manifests_attempts
  manifests_attempts-Keeps zero = search keeps_rules
  manifests_attempts-Keeps (suc n) = Keeps-bind _ _ (run_ssh-Keeps false _) λ r.
      Keeps-on_option _ _ _ (run_ssh-Keeps false _ ▸ manifests_attempts-Keeps n) (λ s. Keeps-pure s)

  get_vps_manifests-Keeps : Keeps P (get_vps_manifests host)
  unfolding get_vps_manifests
  get_vps_manifests-Keeps = manifests_attempts-Keeps 3

  fetch_md5-Keeps : (n : ℕ) (url : Text) → Keeps P (fetch_md5 host n url)
  unfolding fetch_md5
  fetch_md5-Keeps zero url = search keeps_rules
  fetch_md5-Keeps (suc n) url = Keeps-bind _ _ (search keeps_rules) λ found.
      Keeps-on_option _ _ _ (search keeps_rules ▸ fetch_md5-Keeps n url) (λ s. Keeps-pure s)

  fetch_version-Keeps : (n : ℕ) (url : Text) → Keeps P (fetch_version host n url)
  unfolding fetch_version
  fetch_version-Keeps zero url = search keeps_rules
  fetch_version-Keeps (suc n) url = Keeps-bind _ _ (search keeps_rules) λ answer.
      Keeps-on_option _ _ _ (search keeps_rules ▸ fetch_version-Keeps n url)
        (λ found. Keeps-on_option found _ _ (fetch_version-Keeps n url) (λ s. Keeps-pure s))

  pub fetch_geofabrik_metadata-Keeps :
      (pbf_url md5_url : Text) → Keeps P (fetch_geofabrik_metadata host pbf_url md5_url)
  unfolding fetch_geofabrik_metadata
  fetch_geofabrik_metadata-Keeps pbf_url md5_url =
      Keeps-bind _ _ (fetch_md5-Keeps 5 md5_url)
        λ md5. Keeps-bind _ _ (fetch_version-Keeps 5 pbf_url) λ version. Keeps-pure _

  download_file_with_retry-Keeps :
      (n : ℕ) (url : Text) (path : FilePath) → Keeps P (download_file_with_retry host n url path)
  unfolding download_file_with_retry
  download_file_with_retry-Keeps zero url path = search keeps_rules
  download_file_with_retry-Keeps (suc n) url path = Keeps-bind _ _ (search keeps_rules) λ done.
      Keeps-if _ _ _ (Keeps-pure tt)
        (search keeps_rules ▸ download_file_with_retry-Keeps n url path)

  pub hashes_of-Keeps : (path : FilePath) → Keeps P (hashes_of host path)
  unfolding hashes_of
  hashes_of-Keeps path = search keeps_rules

  fetch_pbf-Keeps : (url : Text) (path : FilePath) → Keeps P (fetch_pbf host url path)
  unfolding fetch_pbf
  fetch_pbf-Keeps url path = download_file_with_retry-Keeps 5 url path ▸ hashes_of-Keeps path

  pub size_now-Keeps : (path : FilePath) → Keeps P (size_now host path)
  unfolding size_now
  size_now-Keeps path = search keeps_rules

  pub remove_if_there-Keeps : (path : FilePath) → Keeps P (remove_if_there host path)
  unfolding remove_if_there
  remove_if_there-Keeps path = search keeps_rules

  has_bytes-Keeps : (path : FilePath) → Keeps P (has_bytes host path)
  unfolding has_bytes
  has_bytes-Keeps path = Keeps-bind _ _ (search keeps_rules) λ there.
      Keeps-if _ _ _ (Keeps-pure false) (Keeps-bind _ _ (size_now-Keeps path) λ n. Keeps-pure _)

  pub verified_download-Keeps :
      (path : FilePath) (url md5 : Text) → Keeps P (verified_download host path url md5)
  unfolding verified_download
  verified_download-Keeps path url md5 = Keeps-bind _ _ (has_bytes-Keeps path) λ there.
      Keeps-bind _ _
        (Keeps-if _ _ _ (fetch_pbf-Keeps url path) (
          Keeps-bind _ _ (hashes_of-Keeps path)
            λ old. Keeps-if _ _ _ (Keeps-pure old) (fetch_pbf-Keeps url path)))
        λ hashes. Keeps-assert _ ▸ Keeps-pure _

  pub transfer-Keeps : (name : Text) (f_size : ℕ) → Keeps P (transfer host name f_size)
  unfolding transfer
  transfer-Keeps name f_size =
      Keeps-bind _ _ (run_ssh-Keeps true _)
        λ r. Keeps-if _ _ _ (Keeps-pure tt) (run_scp-Keeps _ _ ▸ Keeps-pure tt)

  find_hosted-Keeps : (name : Text) (f_size : ℕ) → Keeps P (find_hosted host name f_size)
  unfolding find_hosted
  find_hosted-Keeps name f_size = Keeps-bind _ _ get_vps_manifests-Keeps λ m. Keeps-lift _

  poll_cid-Keeps : (n : ℕ) (name : Text) (f_size : ℕ) → Keeps P (poll_cid host n name f_size)
  unfolding poll_cid
  poll_cid-Keeps zero name f_size = search keeps_rules
  poll_cid-Keeps (suc n) name f_size =
      search keeps_rules
      ▸ Keeps-bind _ _ (find_hosted-Keeps name f_size)
          λ m. Keeps-on_option m _ _ (poll_cid-Keeps n name f_size) (λ c. Keeps-pure _)

  wait_blocks-Keeps :
      (n : ℕ) (prev : Option ℕ) (stable : ℕ) → Keeps P (wait_blocks host n prev stable)
  unfolding wait_blocks
  wait_blocks-Keeps zero prev stable = search keeps_rules
  wait_blocks-Keeps (suc n) prev stable =
      search keeps_rules
      ▸ Keeps-bind _ _ (run_ssh-Keeps true _) λ r.
        Keeps-if _ _ _ (wait_blocks-Keeps n _ 0)
          (Keeps-if _ _ _ (Keeps-pure tt) (wait_blocks-Keeps n prev (stable + 1)))

  upload_file-Keeps : (name : Text) (f_size : ℕ) → Keeps P (upload_file host name f_size)
  unfolding upload_file
  upload_file-Keeps name f_size =
      run_ssh-Keeps true _
      ▸ Keeps-bind _ _ (poll_cid-Keeps 60 name f_size)
          λ cid. wait_blocks-Keeps 40 none 0 ▸ Keeps-pure cid

  pub host_file-Keeps : (name : Text) (f_size : ℕ) → Keeps P (host_file host name f_size)
  unfolding host_file
  host_file-Keeps name f_size = Keeps-bind _ _ (find_hosted-Keeps name f_size) λ m.
      Keeps-bind _ _ (Keeps-on_option _ _ _ (upload_file-Keeps name f_size) (λ c. Keeps-pure _))
        λ cid. Keeps-or_raise _ _
