-- ===== src/Reboot/Verify.antt =====
-- `main` of scripts/verify_reboot_survival.py.
use atlasmirror.Prelude.{Bool}
use atlasmirror.Json.{Json}
use atlasmirror.Hashing.{Hashes}
use atlasmirror.Host.{Host, clock_ms, write_log, reboot_log, Io, ask, ◌>>=◌, ◌>>◌}
use atlasmirror.Reboot.Node.{check_auth, deploy, check_node, reboot_vps, check_service}
use atlasmirror.Reboot.Client.{
  ambient_discovery, fetch_manifest, download_file, check_file, stop_client,
}

module _ (host : Host) where
  -- The clock gives the log's time.
  unfoldable pub write_evidence : Json → Json → Bool → Hashes → Io (Unit {0})
  write_evidence peer spr ambient file = do
    ask host clock_ms
    ask host (write_log (reboot_log peer spr ambient file))

  -- what follows the reboot
  unfoldable pub verify_recovery : Io (Unit {0})
  verify_recovery = do
    check_service host
    (peer, spr) ← check_node host
    ambient ← ambient_discovery host
    fetch_manifest host spr
    download_file host
    file ← check_file host
    write_evidence peer spr ambient file
    stop_client host

  unfoldable pub verify_reboot : Io (Unit {0})
  verify_reboot = do check_auth host; deploy host; check_node host; reboot_vps host; verify_recovery
