-- ===== src/Reboot/Examples.antt =====
-- The properties of scripts/verify_reboot_survival.py in a small world.
use atlasmirror.Prelude.{refl, [], ◌≡◌, none, leb, arith, length, ◌≤◌, if◌then◌else◌}
use atlasmirror.Outcome.{ok}
use atlasmirror.Host.{Host, Request, Answer, History, vps, uptime}
use atlasmirror.Host.World.{host_with}
use atlasmirror.Reboot.Verify.{verify_reboot}
use atlasmirror.Reboot.Node.{reboot_vps}
use atlasmirror.Reboot.Bound.{requests-verify_reboot}
use atlasmirror.Reboot.Liveness.{polls, IsBack, reboot_vps_returns}

requests-verify_reboot_example : length (verify_reboot (host_with []) []).1 ≤ 2445
requests-verify_reboot_example = requests-verify_reboot (host_with []) []

-- The VPS answers from the third poll on.
abbrev slow_answer : (r : Request) → (h : History) → Answer r
slow_answer (vps uptime) h = if leb 2 (polls h) then (host_with []).answer (vps uptime) h else none
slow_answer r h = (host_with []).answer r h

abbrev slow_host : Host
slow_host = record {
  answer = slow_answer;
  md5 = (host_with []).md5;
  sha256 = (host_with []).sha256;
  http_date = (host_with []).http_date;
  utc_date = (host_with []).utc_date;
}

slow_host-IsBack : IsBack slow_host 2
slow_host-IsBack = record { at = λ h e. ground (arith, e) }

reboot_vps_returns_example : (reboot_vps slow_host []).0 ≡ ok tt
reboot_vps_returns_example = reboot_vps_returns slow_host 2 _ [] refl (omega arith) slow_host-IsBack
