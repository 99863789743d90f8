-- ===== src/Deploy/Quiet.antt =====
-- scripts/deploy_vps_storage.py: invariants over the steps that publish nothing.
use atlasmirror.Prelude.{ℕ, zero, suc, Text, refl}
use atlasmirror.Json.{Json}
use atlasmirror.Host.{Host, History, Remote, FilePath}
use atlasmirror.Host.Keeps.{
  calm, Keeps, IsQuiet, keeps_rules, Keeps-bind, Keeps-pure, Keeps-on_option, Keeps-or_raise, ◌▸◌,
}
use atlasmirror.Steps.Laws.{run_local-Keeps, size_of-Keeps}
use atlasmirror.Reboot.Quiet.{request_manifest-Keeps}
use atlasmirror.Deploy.Node.{run_ssh, copy_closure, install_node, start_storage, read_node}
use atlasmirror.Deploy.Client.{
  start_external, event_text, wait_event, fetch_manifest, download_dataset,
}

module _ (host : Host) {P : History → Type 0} (q : IsQuiet P) where
  pub run_ssh-Keeps : (c : Remote) → Keeps P (run_ssh host c)
  unfolding run_ssh
  run_ssh-Keeps c = search keeps_rules

  copy_closure-Keeps : Keeps P (copy_closure host)
  unfolding copy_closure
  copy_closure-Keeps = search keeps_rules

  pub install_node-Keeps : Keeps P (install_node host)
  unfolding install_node
  install_node-Keeps = Keeps-bind _ _ (search keeps_rules) λ there.
      search keeps_rules
      ▸ size_of-Keeps host (calm q) _
      ▸ copy_closure-Keeps
      ▸ run_ssh-Keeps _
      ▸ run_ssh-Keeps _
      ▸ Keeps-pure tt

  pub start_storage-Keeps : Keeps P (start_storage host)
  unfolding start_storage
  start_storage-Keeps =
      run_ssh-Keeps _
      ▸ run_ssh-Keeps _
      ▸ search keeps_rules
      ▸ run_ssh-Keeps _
      ▸ search keeps_rules
      ▸ run_ssh-Keeps _
      ▸ run_ssh-Keeps _
      ▸ run_ssh-Keeps _
      ▸ run_ssh-Keeps _
      ▸ search keeps_rules

  pub read_node-Keeps : Keeps P (read_node host)
  unfolding read_node
  read_node-Keeps = Keeps-bind _ _ (run_ssh-Keeps _) λ p.
      Keeps-bind _ _ (search keeps_rules) λ peer. Keeps-bind _ _ (run_ssh-Keeps _) λ s.
        Keeps-bind _ _ (search keeps_rules) λ spr. run_ssh-Keeps _ ▸ run_ssh-Keeps _ ▸ Keeps-pure _

  pub start_external-Keeps : (spr : Json) → Keeps P (start_external host spr)
  unfolding start_external
  start_external-Keeps spr =
      run_local-Keeps host (calm q) _ refl
      ▸ search keeps_rules
      ▸ run_local-Keeps host (calm q) _ refl
      ▸ search keeps_rules
      ▸ run_local-Keeps host (calm q) _ refl
      ▸ run_local-Keeps host (calm q) _ refl
      ▸ run_local-Keeps host (calm q) _ refl
      ▸ search keeps_rules

  event_text-Keeps : (p : FilePath) (word : Text) → Keeps P (event_text host p word)
  unfolding event_text
  event_text-Keeps p word = search (keeps_rules, size_of-Keeps host (calm q)) depth 8

  wait_event-Keeps : (n : ℕ) (p : FilePath) (word : Text) → Keeps P (wait_event host n p word)
  unfolding wait_event
  wait_event-Keeps zero p word = Keeps-pure _
  wait_event-Keeps (suc n) p word = Keeps-bind _ _ (event_text-Keeps p word) λ seen.
      Keeps-on_option seen _ _ (search keeps_rules ▸ wait_event-Keeps n p word)
        (λ content. Keeps-pure _)

  pub fetch_manifest-Keeps : Keeps P (fetch_manifest host)
  unfolding fetch_manifest
  fetch_manifest-Keeps =
      request_manifest-Keeps host (calm q)
      ▸ Keeps-bind _ _ (wait_event-Keeps 45 _ _) λ seen. search keeps_rules ▸ Keeps-or_raise _ seen

  pub download_dataset-Keeps : Keeps P (download_dataset host)
  unfolding download_dataset
  download_dataset-Keeps = Keeps-bind _ _ (search keeps_rules) λ there.
      search keeps_rules
      ▸ search keeps_rules
      ▸ search keeps_rules
      ▸ search keeps_rules
      ▸ run_local-Keeps host (calm q) _ refl
      ▸ Keeps-bind _ _ (wait_event-Keeps 180 _ _) λ seen. search keeps_rules ▸ Keeps-or_raise _ seen
