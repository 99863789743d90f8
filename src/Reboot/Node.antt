-- ===== src/Reboot/Node.antt =====
-- scripts/verify_reboot_survival.py, steps 1 to 4: the VPS before and after its reboot.
use atlasmirror.Prelude.{
  ℕ, zero, suc, Text, codes, Bool, true, false, not, ◌||◌, ◌==◌, if◌then◌else◌, Option, none, some,
  List, [], ◌∷◌,
}
use atlasmirror.Outcome.{
  Error, Result, ok, err, index_error, key_error, type_error, json_error, timeout_expired,
}
use atlasmirror.Outcome
use atlasmirror.Strings.{strip, splitlines, includes}
use atlasmirror.Json.{Json, obj, loads, at}
use atlasmirror.Host.{
  Host, Completed, Vps, vps, auth_check, write_init, make_executable, write_unit, stop_unit,
  kill_logos, clear_state, daemon_reload, enable_unit, restart_unit, unit_status, peer_id, node_spr,
  held_manifests, reboot, uptime, is_active, listening, sleep_ms, Io, pure, raise, or_raise, except,
  assert, lift, ask, perform, ◌>>=◌, ◌>>◌,
}

abbrev pub expected_cid : Text
expected_cid = codes "zDvZRwzm4i6cSYFNEAUzyEGTJBroH2EJjc3FJNmbhoKRwagSZ1ny"

-- lines[-1]
last_line : List Text → Result Text
last_line [] = err index_error
last_line (line ∷ []) = ok line
last_line (line ∷ next ∷ lines) = last_line (next ∷ lines)

-- json.loads(line)
load : Text → Result Json
load line = elim (loads line) [ none ↦ err json_error | some v ↦ ok v ]

-- v[k]
item : Text → Json → Result Json
item k (obj fs) = elim (at k (obj fs)) [ none ↦ err key_error | some v ↦ ok v ]
item k v = err type_error

-- json.loads(stdout.strip().splitlines()[-1])["result"]["value"]
pub value_in : Text → Result Json
value_in stdout = Outcome.◌>>=◌ (last_line (splitlines (strip stdout))) λ line.
    Outcome.◌>>=◌ (load line)
      λ v. Outcome.◌>>=◌ (item (codes "result") v) λ r. item (codes "value") r

-- a poll of `uptime`, in a `try` whose handler passes
abbrev pub is_up : Option Completed → Bool
is_up none = false
is_up (some r) = r.returncode == 0

module _ (host : Host) where
  -- run_ssh(cmd, check=False)
  unfoldable pub call : Vps → Io Completed
  call c = do r ← perform host (vps c); or_raise timeout_expired r

  -- run_ssh(cmd)
  unfoldable pub run_ssh : Vps → Io Completed
  run_ssh c = do r ← call c; if r.returncode == 0 then pure r else raise (Error.exit r.returncode)

  -- step 1
  unfoldable pub check_auth : Io (Unit {0})
  check_auth =
      except
        (do
          r ← call auth_check
          if not (r.returncode == 0) || not (includes (codes "SSH_AUTH_OK") r.stdout)
              then raise (Error.exit 1)
              else pure tt)
        (raise (Error.exit 1))

  -- step 2
  unfoldable pub deploy : Io (Unit {0})
  deploy = do
    run_ssh write_init
    run_ssh make_executable
    run_ssh write_unit
    call stop_unit
    call kill_logos
    call clear_state
    ask host (sleep_ms 2000)
    run_ssh daemon_reload
    run_ssh enable_unit
    run_ssh restart_unit
    ask host (sleep_ms 5000)
    run_ssh unit_status
    pure tt

  -- the node's peer and SPR; the CID is among its manifests
  unfoldable pub check_node : Io (Json × Json)
  check_node = do
    p ← run_ssh peer_id
    peer ← lift (value_in p.stdout)
    s ← run_ssh node_spr
    spr ← lift (value_in s.stdout)
    m ← run_ssh held_manifests
    assert (includes expected_cid m.stdout)
    pure (peer, spr)

  -- the loop over `range(60)`
  unfoldable pub wait_vps : ℕ → Io Bool
  wait_vps zero = pure false
  wait_vps (suc n) = do
    r ← perform host (vps uptime)
    if is_up r then pure true else do ask host (sleep_ms 3000); wait_vps n

  -- step 3
  unfoldable pub reboot_vps : Io (Unit {0})
  reboot_vps = do call reboot; ask host (sleep_ms 15000); recovered ← wait_vps 60; assert recovered

  -- step 4 up to the port
  unfoldable pub check_service : Io (Unit {0})
  check_service = do
    ask host (sleep_ms 6000)
    s ← run_ssh is_active
    assert (includes (codes "active") (strip s.stdout))
    p ← run_ssh listening
    assert (includes (codes "8070") p.stdout)
