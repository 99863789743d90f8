-- ===== src/Deploy/Node.antt =====
-- scripts/deploy_vps_storage.py, steps 1 to 7: the node on the VPS and the upload of the file.
use atlasmirror.Prelude.{
  ℕ, zero, suc, Text, codes, text_eq, Bool, true, false, not, leb, ◌&&◌, ◌||◌, ◌==◌, if◌then◌else◌,
  Option, none, some, List, [], ◌∷◌,
}
use atlasmirror.Outcome.{Error}
use atlasmirror.Strings.{splitlines}
use atlasmirror.Json.{
  Json, null, bool, nat, minus, float, str, arr, obj, nil, cons, end, field, loads, at,
}
use atlasmirror.Host.{
  Host, Completed, Remote, ssh, scp, closure_tar, extract_closure, logoscore_version, write_node,
  kill_node, start_node, node_status, load_node, init_node, activate_node, node_peer, public_spr,
  node_network, node_debug, watch_uploads, upload_henan, upload_events, exists, sleep_ms, Io, pure,
  raise, on_option, assert, lift, ask, perform, ◌>>=◌, ◌>>◌,
}
use atlasmirror.Steps.{size_of}
use atlasmirror.Reboot.Node.{expected_cid, value_in}

-- A digit that is not 0 stands before the exponent. A float too small for a double is not met.
has_value : Text → Bool
has_value [] = false
has_value (c ∷ s) =
    if c == b'e' || c == b'E' then false else if leb b'1' c && leb c b'9' then true else has_value s

-- Is the value true as a condition?
pub is_truthy : Json → Bool
is_truthy null = false
is_truthy (bool b) = b
is_truthy (nat n) = not (n == 0)
is_truthy (minus n) = not (n == 0)
is_truthy (float t) = has_value t
is_truthy (str t) = not (text_eq t [])
is_truthy (arr nil) = false
is_truthy (arr (cons v vs)) = true
is_truthy (obj end) = false
is_truthy (obj (field k v fs)) = true

-- arg0["cid"], if "cid" in arg0; an exception on the way gives none
cid_in_arg : Json → Option Json
cid_in_arg (obj fs) = at (codes "cid") (obj fs)
cid_in_arg v = none

-- ev.get("data", {}).get("arg0", "{}") read as JSON
arg_of : Json → Option Json
arg_of (obj fs) = elim (at (codes "data") (obj fs)) [
  | some (obj ds) ↦ elim (at (codes "arg0") (obj ds)) [
    | none ↦ some (obj end)
    | some (str t) ↦ loads t
    | _ ↦ none
  ]
  | none ↦ some (obj end)
  | _ ↦ none
]
arg_of v = none

-- one line of the event file, in a `try` whose handler passes
cid_of_event : Text → Option Json
cid_of_event line = elim (loads line) [
  | none ↦ none
  | some ev ↦ elim (arg_of ev) [ none ↦ none | some arg ↦ cid_in_arg arg ]
]

-- The first line that has a CID decides.
cid_of_events : List Text → Option Json
cid_of_events [] = none
cid_of_events (line ∷ lines) = elim (cid_of_event line) [
  | some cid ↦ some cid
  | none ↦ cid_of_events lines
]

-- `uploaded_cid` after a look at the event file; a value that is false as a condition is no CID
pub uploaded_in : Text → Option Json
uploaded_in stdout = elim (cid_of_events (splitlines stdout)) [
  | none ↦ none
  | some cid ↦ if is_truthy cid then some cid else none
]

-- uploaded_cid == CID
abbrev pub is_expected : Option Json → Bool
is_expected (some (str t)) = text_eq t expected_cid
is_expected cid = false

module _ (host : Host) where
  -- run_ssh(cmd)
  unfoldable pub run_ssh : Remote → Io Completed
  run_ssh c = do
    r ← perform host (ssh c)
    if r.returncode == 0 then pure r else raise (Error.exit r.returncode)

  -- run_scp(closure_tar, …)
  unfoldable pub copy_closure : Io (Unit {0})
  copy_closure = do
    r ← perform host (scp closure_tar (codes "/root/logos_full_closure.tar.gz"))
    if r.returncode == 0 then pure tt else raise (Error.exit r.returncode)

  -- steps 1 and 2; the size is printed
  unfoldable pub install_node : Io (Unit {0})
  install_node = do
    there ← perform host (exists closure_tar)
    assert there
    size_of host closure_tar
    copy_closure
    run_ssh extract_closure
    run_ssh logoscore_version
    pure tt

  -- steps 3 to 5
  unfoldable pub start_storage : Io (Unit {0})
  start_storage = do
    run_ssh write_node
    run_ssh kill_node
    ask host (sleep_ms 2000)
    run_ssh start_node
    ask host (sleep_ms 3000)
    run_ssh node_status
    run_ssh load_node
    run_ssh init_node
    run_ssh activate_node
    ask host (sleep_ms 3000)

  -- step 6
  unfoldable pub read_node : Io (Json × Json)
  read_node = do
    p ← run_ssh node_peer
    peer ← lift (value_in p.stdout)
    s ← run_ssh public_spr
    spr ← lift (value_in s.stdout)
    run_ssh node_network
    run_ssh node_debug
    pure (peer, spr)

  -- the loop over `range(60)`
  unfoldable pub wait_upload : ℕ → Io (Option Json)
  wait_upload zero = pure none
  wait_upload (suc n) = do
    r ← perform host (ssh upload_events)
    on_option (uploaded_in r.stdout) (do ask host (sleep_ms 2000); wait_upload n)
        (λ cid. pure (some cid))

  -- step 7
  unfoldable pub upload_dataset : Io (Unit {0})
  upload_dataset = do
    run_ssh watch_uploads
    ask host (sleep_ms 1000)
    run_ssh upload_henan
    uploaded ← wait_upload 60
    assert (is_expected uploaded)
