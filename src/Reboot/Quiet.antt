-- ===== src/Reboot/Quiet.antt =====
-- scripts/verify_reboot_survival.py: invariants over the client's steps.
use atlasmirror.Prelude.{ℕ, zero, suc, false, ◌≡◌, refl, Option}
use atlasmirror.Json.{Json}
use atlasmirror.Host.{Host, History, Vps, vps}
use atlasmirror.Host.Keeps.{
  Keeps, IsQuietFor, disturbs, keeps_rules, Keeps-bind, Keeps-perform, Keeps-or_raise, Keeps-if,
  Keeps-pure, Keeps-raise, ◌▸◌,
}
use atlasmirror.Steps.Laws.{run_local-Keeps, size_of-Keeps, event_in-Keeps}
use atlasmirror.Reboot.Node.{call, run_ssh}
use atlasmirror.Reboot.Client.{
  start_client, request_manifest, wait_manifest, stop_client, ambient_discovery, fetch_manifest,
  has_size, wait_download, download_file,
}

module _ (host : Host) {P : History → Type 0} (q : IsQuietFor disturbs P) where
  pub run_ssh-Keeps : (c : Vps) → disturbs (vps c) ≡ false → Keeps P (run_ssh host c)
  unfolding run_ssh call
  run_ssh-Keeps c e =
      Keeps-bind _ _ (Keeps-bind _ _ (Keeps-perform host (vps c) q e) (λ r. Keeps-or_raise _ r))
        λ r. Keeps-if _ _ _ (Keeps-pure r) (Keeps-raise _)

  start_client-Keeps : (bootstrap : Option Json) → Keeps P (start_client host bootstrap)
  unfolding start_client
  start_client-Keeps bootstrap =
      run_local-Keeps host q _ refl
      ▸ search keeps_rules
      ▸ run_local-Keeps host q _ refl
      ▸ search keeps_rules
      ▸ run_local-Keeps host q _ refl
      ▸ run_local-Keeps host q _ refl
      ▸ run_local-Keeps host q _ refl
      ▸ search keeps_rules

  pub request_manifest-Keeps : Keeps P (request_manifest host)
  unfolding request_manifest
  request_manifest-Keeps =
      search keeps_rules
      ▸ search keeps_rules
      ▸ search keeps_rules
      ▸ run_local-Keeps host q _ refl
      ▸ Keeps-pure tt

  wait_manifest-Keeps : (n : ℕ) → Keeps P (wait_manifest host n)
  unfolding wait_manifest
  wait_manifest-Keeps zero = Keeps-pure _
  wait_manifest-Keeps (suc n) =
      Keeps-bind _ _ (event_in-Keeps host q _ _)
        λ seen. Keeps-if _ _ _ (Keeps-pure _) (search keeps_rules ▸ wait_manifest-Keeps n)

  pub stop_client-Keeps : Keeps P (stop_client host)
  unfolding stop_client
  stop_client-Keeps = search keeps_rules

  pub ambient_discovery-Keeps : Keeps P (ambient_discovery host)
  unfolding ambient_discovery
  ambient_discovery-Keeps =
      search keeps_rules
      ▸ search keeps_rules
      ▸ start_client-Keeps _
      ▸ request_manifest-Keeps
      ▸ Keeps-bind _ _ (wait_manifest-Keeps 25) λ success.
        search keeps_rules ▸ stop_client-Keeps ▸ search keeps_rules ▸ Keeps-pure success

  pub fetch_manifest-Keeps : (spr : Json) → Keeps P (fetch_manifest host spr)
  unfolding fetch_manifest
  fetch_manifest-Keeps spr =
      start_client-Keeps _
      ▸ request_manifest-Keeps
      ▸ Keeps-bind _ _ (wait_manifest-Keeps 60) λ seen. search keeps_rules

  has_size-Keeps : Keeps P (has_size host)
  unfolding has_size
  has_size-Keeps = search (keeps_rules, size_of-Keeps)

  wait_download-Keeps : (n : ℕ) → Keeps P (wait_download host n)
  unfolding wait_download
  wait_download-Keeps zero = Keeps-pure _
  wait_download-Keeps (suc n) = Keeps-bind _ _ has_size-Keeps λ complete.
      Keeps-if _ _ _ (Keeps-pure _) (
        Keeps-bind _ _ (event_in-Keeps host q _ _)
          λ seen. Keeps-if _ _ _ (Keeps-pure _) (search keeps_rules ▸ wait_download-Keeps n))

  pub download_file-Keeps : Keeps P (download_file host)
  unfolding download_file
  download_file-Keeps = Keeps-bind _ _ (search keeps_rules) λ there.
      search keeps_rules
      ▸ search keeps_rules
      ▸ search keeps_rules
      ▸ search keeps_rules
      ▸ run_local-Keeps host q _ refl
      ▸ wait_download-Keeps 400
      ▸ search keeps_rules
