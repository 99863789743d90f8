-- ===== src/Reboot/Bound.antt =====
-- scripts/verify_reboot_survival.py: how many requests a run makes.
use atlasmirror.Prelude.{ℕ, zero, suc, ◌+◌, ◌*◌, ◌≤◌, arith, length, Option}
use atlasmirror.Json.{Json}
use atlasmirror.Host.{Host, History, Vps, vps, uptime, exists, retrieved, read_bytes}
use atlasmirror.Host.Costs.{
  Costs, Costs-perform, Costs-pure, Costs-raise, Costs-or_raise, Costs-lift, Costs-if, Costs-le,
  Costs-except, Costs-assert, Costs-bind, ◌⊕◌, Costs-ask, Costs-when,
}
use atlasmirror.Steps.{hash_file}
use atlasmirror.Steps.Laws.{run_local-Costs, size_of-Costs, event_in-Costs}
use atlasmirror.Reboot.Node.{
  call, run_ssh, check_auth, deploy, check_node, wait_vps, reboot_vps, check_service,
}
use atlasmirror.Reboot.Client.{
  start_client, request_manifest, wait_manifest, stop_client, ambient_discovery, fetch_manifest,
  has_size, wait_download, download_file, check_file,
}
use atlasmirror.Reboot.Verify.{write_evidence, verify_recovery, verify_reboot}

module _ (host : Host) where
  call-Costs : (c : Vps) → Costs 1 (call host c)
  unfolding call
  call-Costs c = Costs-bind (Costs-perform host (vps c)) (λ r. Costs-or_raise _ r)

  run_ssh-Costs : (c : Vps) → Costs 1 (run_ssh host c)
  unfolding run_ssh
  run_ssh-Costs c = Costs-bind (call-Costs c) (λ r. Costs-if _ (Costs-pure r) (Costs-raise _))

  check_auth-Costs : Costs 1 (check_auth host)
  unfolding check_auth
  check_auth-Costs =
      Costs-except (Costs-bind (call-Costs _) (λ r. Costs-if _ (Costs-raise _) (Costs-pure tt)))
        (Costs-raise _)

  deploy-Costs : Costs 12 (deploy host)
  unfolding deploy
  deploy-Costs =
      run_ssh-Costs _
      ⊕ run_ssh-Costs _
      ⊕ run_ssh-Costs _
      ⊕ call-Costs _
      ⊕ call-Costs _
      ⊕ call-Costs _
      ⊕ Costs-ask host _
      ⊕ run_ssh-Costs _
      ⊕ run_ssh-Costs _
      ⊕ run_ssh-Costs _
      ⊕ Costs-ask host _
      ⊕ run_ssh-Costs _
      ⊕ Costs-pure tt

  check_node-Costs : Costs 3 (check_node host)
  unfolding check_node
  check_node-Costs = Costs-bind (run_ssh-Costs _) λ p. Costs-bind (Costs-lift _) λ peer.
      Costs-bind (run_ssh-Costs _) λ s.
        Costs-bind (Costs-lift _)
          λ spr. Costs-bind (run_ssh-Costs _) λ m. Costs-assert _ ⊕ Costs-pure _

  wait_vps-Costs : (n : ℕ) → Costs (n * 2) (wait_vps host n)
  unfolding wait_vps
  wait_vps-Costs zero = Costs-pure _
  wait_vps-Costs (suc n) = Costs-le (omega arith) (
      Costs-bind (Costs-perform host (vps uptime))
        λ r. Costs-if _ (Costs-pure _) (Costs-ask host _ ⊕ wait_vps-Costs n))

  reboot_vps-Costs : Costs 122 (reboot_vps host)
  unfolding reboot_vps
  reboot_vps-Costs =
      call-Costs _ ⊕ Costs-ask host _ ⊕ Costs-bind (wait_vps-Costs 60) (λ b. Costs-assert b)

  check_service-Costs : Costs 3 (check_service host)
  unfolding check_service
  check_service-Costs =
      Costs-ask host _
      ⊕ Costs-bind (run_ssh-Costs _)
          λ s. Costs-assert _ ⊕ Costs-bind (run_ssh-Costs _) λ p. Costs-assert _

  start_client-Costs : (bootstrap : Option Json) → Costs 8 (start_client host bootstrap)
  unfolding start_client
  start_client-Costs bootstrap =
      run_local-Costs host _
      ⊕ Costs-ask host _
      ⊕ run_local-Costs host _
      ⊕ Costs-ask host _
      ⊕ run_local-Costs host _
      ⊕ run_local-Costs host _
      ⊕ run_local-Costs host _
      ⊕ Costs-ask host _

  pub request_manifest-Costs : Costs 4 (request_manifest host)
  unfolding request_manifest
  request_manifest-Costs =
      Costs-ask host _
      ⊕ Costs-ask host _
      ⊕ Costs-ask host _
      ⊕ run_local-Costs host _
      ⊕ Costs-pure tt

  wait_manifest-Costs : (n : ℕ) → Costs (n * 3) (wait_manifest host n)
  unfolding wait_manifest
  wait_manifest-Costs zero = Costs-pure _
  wait_manifest-Costs (suc n) = Costs-le (omega arith) (
      Costs-bind (event_in-Costs host _ _)
        λ seen. Costs-if _ (Costs-pure _) (Costs-ask host _ ⊕ wait_manifest-Costs n))

  stop_client-Costs : Costs 3 (stop_client host)
  unfolding stop_client
  stop_client-Costs = Costs-ask host _ ⊕ Costs-ask host _ ⊕ Costs-ask host _

  ambient_discovery-Costs : Costs 94 (ambient_discovery host)
  unfolding ambient_discovery
  ambient_discovery-Costs =
      Costs-ask host _
      ⊕ Costs-ask host _
      ⊕ start_client-Costs _
      ⊕ request_manifest-Costs
      ⊕ Costs-bind (wait_manifest-Costs 25)
          λ success. Costs-ask host _ ⊕ stop_client-Costs ⊕ Costs-ask host _ ⊕ Costs-pure success

  fetch_manifest-Costs : (spr : Json) → Costs 193 (fetch_manifest host spr)
  unfolding fetch_manifest
  fetch_manifest-Costs spr =
      start_client-Costs _
      ⊕ request_manifest-Costs
      ⊕ Costs-bind (wait_manifest-Costs 60) λ seen. Costs-ask host _ ⊕ Costs-assert seen

  has_size-Costs : Costs 2 (has_size host)
  unfolding has_size
  has_size-Costs =
      Costs-bind (Costs-perform host (exists retrieved)) λ there.
        Costs-if _ (Costs-bind (size_of-Costs host _) (λ size. Costs-pure _)) (Costs-pure _)

  wait_download-Costs : (n : ℕ) → Costs (n * 5) (wait_download host n)
  unfolding wait_download
  wait_download-Costs zero = Costs-pure _
  wait_download-Costs (suc n) = Costs-le (omega arith) (
      Costs-bind has_size-Costs λ complete. Costs-if _ (Costs-pure _) (
        Costs-bind (event_in-Costs host _ _)
          λ seen. Costs-if _ (Costs-pure _) (Costs-ask host _ ⊕ wait_download-Costs n)))

  download_file-Costs : Costs 2007 (download_file host)
  unfolding download_file
  download_file-Costs = Costs-bind (Costs-perform host (exists retrieved)) λ there.
      Costs-when there (Costs-ask host _)
      ⊕ Costs-ask host _
      ⊕ Costs-ask host _
      ⊕ Costs-ask host _
      ⊕ run_local-Costs host _
      ⊕ wait_download-Costs 400
      ⊕ Costs-ask host _

  check_file-Costs : Costs 2 (check_file host)
  unfolding check_file hash_file
  check_file-Costs = Costs-bind (Costs-perform host (exists retrieved)) λ there.
      Costs-assert there
      ⊕ Costs-bind
          (Costs-bind (Costs-perform host (read_bytes retrieved))
            λ found. Costs-bind (Costs-or_raise _ found) λ bytes. Costs-pure _)
          λ file. Costs-assert _ ⊕ Costs-assert _ ⊕ Costs-assert _ ⊕ Costs-pure file

  verify_recovery-Costs : Costs 2307 (verify_recovery host)
  unfolding verify_recovery write_evidence
  verify_recovery-Costs =
      check_service-Costs
      ⊕ Costs-bind check_node-Costs λ (peer, spr). Costs-bind ambient_discovery-Costs λ ambient.
        fetch_manifest-Costs spr
        ⊕ download_file-Costs
        ⊕ Costs-bind check_file-Costs
            λ file. (Costs-ask host _ ⊕ Costs-ask host _) ⊕ stop_client-Costs

  verify_reboot-Costs : Costs 2445 (verify_reboot host)
  unfolding verify_reboot
  verify_reboot-Costs =
      check_auth-Costs ⊕ deploy-Costs ⊕ check_node-Costs ⊕ reboot_vps-Costs ⊕ verify_recovery-Costs

-- A run of verify_reboot makes at most 2445 requests, its sleeps included, whatever the world answers.
pub requests-verify_reboot :
    (host : Host) (h : History) → length (verify_reboot host h).1 ≤ length h + 2445
requests-verify_reboot host h = (verify_reboot-Costs host).at h
