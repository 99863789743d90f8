-- ===== src/Deploy/Bound.antt =====
-- scripts/deploy_vps_storage.py: how many requests a run makes.
use atlasmirror.Prelude.{ℕ, zero, suc, ◌+◌, ◌*◌, ◌≤◌, arith, Text, length, codes, none, some}
use atlasmirror.Json.{Json}
use atlasmirror.Host.{
  Host, History, Remote, FilePath, ssh, scp, closure_tar, exists, retrieved, read_text,
  upload_events,
}
use atlasmirror.Host.Costs.{
  Costs, Costs-perform, Costs-pure, Costs-raise, Costs-or_raise, Costs-lift, Costs-if, Costs-le,
  Costs-on_option, Costs-assert, Costs-bind, ◌⊕◌, Costs-ask, Costs-when,
}
use atlasmirror.Steps.Laws.{run_local-Costs, size_of-Costs, hash_file-Costs}
use atlasmirror.Reboot.Bound.{request_manifest-Costs}
use atlasmirror.Deploy.Node.{
  run_ssh, copy_closure, install_node, start_storage, read_node, wait_upload, upload_dataset,
  uploaded_in,
}
use atlasmirror.Deploy.Client.{
  start_external, event_text, wait_event, fetch_manifest, download_dataset, check_dataset,
  prove_retrieval, deploy_storage,
}

module _ (host : Host) where
  run_ssh-Costs : (c : Remote) → Costs 1 (run_ssh host c)
  unfolding run_ssh
  run_ssh-Costs c =
      Costs-bind (Costs-perform host (ssh c)) (λ r. Costs-if _ (Costs-pure r) (Costs-raise _))

  copy_closure-Costs : Costs 1 (copy_closure host)
  unfolding copy_closure
  copy_closure-Costs =
      Costs-bind (Costs-perform host (scp closure_tar (codes "/root/logos_full_closure.tar.gz")))
        (λ r. Costs-if _ (Costs-pure tt) (Costs-raise _))

  install_node-Costs : Costs 5 (install_node host)
  unfolding install_node
  install_node-Costs = Costs-bind (Costs-perform host (exists closure_tar)) λ there.
      Costs-assert there
      ⊕ size_of-Costs host _
      ⊕ copy_closure-Costs
      ⊕ run_ssh-Costs _
      ⊕ run_ssh-Costs _
      ⊕ Costs-pure tt

  start_storage-Costs : Costs 10 (start_storage host)
  unfolding start_storage
  start_storage-Costs =
      run_ssh-Costs _
      ⊕ run_ssh-Costs _
      ⊕ Costs-ask host _
      ⊕ run_ssh-Costs _
      ⊕ Costs-ask host _
      ⊕ run_ssh-Costs _
      ⊕ run_ssh-Costs _
      ⊕ run_ssh-Costs _
      ⊕ run_ssh-Costs _
      ⊕ Costs-ask host _

  read_node-Costs : Costs 4 (read_node host)
  unfolding read_node
  read_node-Costs = Costs-bind (run_ssh-Costs _) λ p. Costs-bind (Costs-lift _) λ peer.
      Costs-bind (run_ssh-Costs _)
        λ s. Costs-bind (Costs-lift _) λ spr. run_ssh-Costs _ ⊕ run_ssh-Costs _ ⊕ Costs-pure _

  wait_upload-Costs : (n : ℕ) → Costs (n * 2) (wait_upload host n)
  unfolding wait_upload
  wait_upload-Costs zero = Costs-pure none
  wait_upload-Costs (suc n) = Costs-le (omega arith) (
      Costs-bind (Costs-perform host (ssh upload_events)) λ r.
        Costs-on_option (uploaded_in r.stdout) (Costs-ask host _ ⊕ wait_upload-Costs n)
          (λ cid. Costs-pure (some cid)))

  upload_dataset-Costs : Costs 123 (upload_dataset host)
  unfolding upload_dataset
  upload_dataset-Costs =
      run_ssh-Costs _
      ⊕ Costs-ask host _
      ⊕ run_ssh-Costs _
      ⊕ Costs-bind (wait_upload-Costs 60) (λ uploaded. Costs-assert _)

  start_external-Costs : (spr : Json) → Costs 8 (start_external host spr)
  unfolding start_external
  start_external-Costs spr =
      run_local-Costs host _
      ⊕ Costs-ask host _
      ⊕ run_local-Costs host _
      ⊕ Costs-ask host _
      ⊕ run_local-Costs host _
      ⊕ run_local-Costs host _
      ⊕ run_local-Costs host _
      ⊕ Costs-ask host _

  event_text-Costs : (p : FilePath) (word : Text) → Costs 2 (event_text host p word)
  unfolding event_text
  event_text-Costs p word = Costs-bind (size_of-Costs host p) λ size.
      Costs-if _
        (Costs-bind (Costs-perform host (read_text p))
          λ found. Costs-bind (Costs-or_raise _ found) λ content. Costs-pure _)
        (Costs-pure _)

  wait_event-Costs : (n : ℕ) (p : FilePath) (word : Text) → Costs (n * 3) (wait_event host n p word)
  unfolding wait_event
  wait_event-Costs zero p word = Costs-pure none
  wait_event-Costs (suc n) p word = Costs-le (omega arith) (
      Costs-bind (event_text-Costs p word) λ seen.
        Costs-on_option seen (Costs-ask host _ ⊕ wait_event-Costs n p word)
          (λ content. Costs-pure (some content)))

  fetch_manifest-Costs : Costs 140 (fetch_manifest host)
  unfolding fetch_manifest
  fetch_manifest-Costs =
      request_manifest-Costs host
      ⊕ Costs-bind (wait_event-Costs 45 _ _) λ seen. Costs-ask host _ ⊕ Costs-or_raise _ seen

  download_dataset-Costs : Costs 547 (download_dataset host)
  unfolding download_dataset
  download_dataset-Costs = Costs-bind (Costs-perform host (exists retrieved)) λ there.
      Costs-when there (Costs-ask host _)
      ⊕ Costs-ask host _
      ⊕ Costs-ask host _
      ⊕ Costs-ask host _
      ⊕ run_local-Costs host _
      ⊕ Costs-bind (wait_event-Costs 180 _ _) λ seen. Costs-ask host _ ⊕ Costs-or_raise _ seen

  check_dataset-Costs : Costs 2 (check_dataset host)
  unfolding check_dataset
  check_dataset-Costs = Costs-bind (Costs-perform host (exists retrieved)) λ there.
      Costs-assert there
      ⊕ Costs-bind (hash_file-Costs host _)
          λ file. Costs-assert _ ⊕ Costs-assert _ ⊕ Costs-assert _ ⊕ Costs-pure file

  prove_retrieval-Costs : (peer spr : Json) → Costs 700 (prove_retrieval host peer spr)
  unfolding prove_retrieval
  prove_retrieval-Costs peer spr =
      start_external-Costs spr
      ⊕ Costs-bind fetch_manifest-Costs λ manifest. Costs-bind download_dataset-Costs λ download.
        Costs-bind check_dataset-Costs
          λ file. Costs-ask host _ ⊕ Costs-ask host _ ⊕ Costs-ask host _

  deploy_storage-Costs : Costs 842 (deploy_storage host)
  unfolding deploy_storage
  deploy_storage-Costs =
      install_node-Costs
      ⊕ start_storage-Costs
      ⊕ Costs-bind read_node-Costs
          λ (peer, spr). upload_dataset-Costs ⊕ prove_retrieval-Costs peer spr

-- A run of deploy_storage makes at most 842 requests, its sleeps included, whatever the world answers.
pub requests-deploy_storage :
    (host : Host) (h : History) → length (deploy_storage host h).1 ≤ length h + 842
requests-deploy_storage host h = (deploy_storage-Costs host).at h
