-- ===== src/Host/World.antt =====
-- A small world for runs of the scripts: one file on the VPS, whose bytes are their own digest.
use atlasmirror.Prelude.{ℕ, Text, codes, true, none, some, List, [], ◌++◌, append_assoc, append-nil}
use atlasmirror.Hashing.{Hashlib, IsHashlib}
use atlasmirror.Manifest.{Entry}
use atlasmirror.Host.{
  Host, Request, Answer, History, Completed, Remote, Local, ssh, shell, scp, watch, kill_watch,
  sleep_ms, clock_ms, exists, stat_size, read_text, read_bytes, touch, unlink, make_dirs,
  write_config, read_manifest, write_manifest, write_adoption, write_coverage, write_summary,
  http_get, http_head, http_retrieve, published_md5, head, staging_md5, file_size, manifests,
  disk_free, spr, register, query, Vps, vps, auth_check, peer_id, node_spr, held_manifests,
  is_active, listening, write_node_config, write_storage_config, store, write_log, Wsl, wsl,
  write_evidence, new_account, list_accounts,
}

abbrev pub concatenation : Hashlib
concatenation = record { State = List ℕ; new = []; update = λ s b. s ++ b; hexdigest = λ s. s }

pub concatenation-IsHashlib : IsHashlib concatenation
concatenation-IsHashlib = record {
  update-update = λ s a b. append_assoc s a b;
  update-nil = λ s. append-nil s;
}

abbrev pub out : Text → Completed
out t = record { returncode = 0; stdout = t; stderr = [] }

-- The file's bytes, which are their own digest.
abbrev file_bytes : Text
file_bytes = codes "0123456789abcdef0123456789abcdef"

abbrev on_vps : Remote → Completed
on_vps manifests = out (
    codes
      "{\"success\":true,\"result\":{\"value\":[{\"cid\":\"zD\",\"filename\":\"staging_m.osm.pbf\",\"datasetSize\":32}]}}")
on_vps spr = out (codes "{\"success\":true,\"result\":{\"value\":\"spr:CiU1\"}}")
on_vps (published_md5 u) = out file_bytes
on_vps (head u) = out (codes "location: https://download.geofabrik.de/m-260101.osm.pbf")
on_vps (staging_md5 p) = out file_bytes
on_vps (file_size p) = out (codes "32")
on_vps disk_free = out (codes "/dev/vda1 100G 60G 40G 60% /")
on_vps _ = out []

abbrev on_unit : Vps → Completed
on_unit auth_check = out (codes "SSH_AUTH_OK")
on_unit peer_id = out (codes "{\"result\":{\"value\":\"16Uiu2\"}}")
on_unit node_spr = out (codes "{\"result\":{\"value\":\"spr:CiU1\"}}")
on_unit held_manifests = out (codes "zDvZRwzm4i6cSYFNEAUzyEGTJBroH2EJjc3FJNmbhoKRwagSZ1ny")
on_unit is_active = out (codes "active")
on_unit listening = out (codes "LISTEN 0 4096 *:8070")
on_unit _ = out []

abbrev on_machine : Local → Completed
on_machine query = out (codes "REGION_RECORD: region=m, cid=zD, md5=" ++ file_bytes)
on_machine (register a) =
    out (codes "Transaction submitted! Hash: ab12\nTransaction is included in block 7\n")
on_machine _ = out []

abbrev on_wallet : Wsl → Completed
on_wallet (new_account pass) = out (codes "Public/6iArKUXxhUJqS7kCaPNhwMWt3ro71PDyBj7jwAyE2VQV")
on_wallet list_accounts = out (
    codes
      "Public/6iArKUXxhUJqS7kCaPNhwMWt3ro71PDyBj7jwAyE2VQV Public/111111111111111111111111111111112 Public/111111111111111111111111111111113 Public/111111111111111111111111111111114 Public/111111111111111111111111111111115 Public/111111111111111111111111111111116")
on_wallet _ = out []

abbrev small_world : List Entry → (r : Request) → History → Answer r
small_world es (ssh c) h = on_vps c
small_world es (shell c) h = on_machine c
small_world es (wsl c) h = on_wallet c
small_world es (write_evidence n c) h = tt
small_world es (store p b) h = true
small_world es (scp src dst) h = out []
small_world es (watch p) h = tt
small_world es (kill_watch p) h = tt
small_world es (sleep_ms n) h = tt
small_world es clock_ms h = 1790000000000
small_world es (exists p) h = true
small_world es (stat_size p) h = some 32
small_world es (read_text p) h = some (
    codes
      "{\"event\":\"storageDownloadManifestDone\",\"data\":{\"arg0\":\"{\\\"success\\\":true}\"}}")
small_world es (read_bytes p) h = some file_bytes
small_world es (touch p) h = tt
small_world es (unlink p) h = tt
small_world es (make_dirs p) h = tt
small_world es (write_config n) h = tt
small_world es (vps c) h = some (on_unit c)
small_world es (write_node_config n) h = tt
small_world es write_storage_config h = tt
small_world es (write_log l) h = tt
small_world es read_manifest h = some es
small_world es (write_manifest m) h = tt
small_world es (write_adoption a) h = tt
small_world es (write_coverage m) h = tt
small_world es (write_summary ds) h = tt
small_world es (http_get u) h = none
small_world es (http_head u) h = none
small_world es (http_retrieve u p) h = true

-- The world with these entries in its manifest.
abbrev pub host_with : List Entry → Host
host_with es = record {
  answer = small_world es;
  md5 = concatenation;
  sha256 = concatenation;
  http_date = λ s. none;
  utc_date = λ t. [];
}
