-- ===== src/Deploy/Examples.antt =====
-- The properties of scripts/deploy_vps_storage.py in a small world.
use atlasmirror.Prelude.{codes, ◌≤◌, [], some, length}
use atlasmirror.Host.{
  Host, Request, Answer, History, ssh, node_peer, public_spr, upload_events, read_text,
}
use atlasmirror.Host.World.{host_with, concatenation-IsHashlib, out}
use atlasmirror.Steps.Backing.{Honest}
use atlasmirror.Deploy.Client.{deploy_storage}
use atlasmirror.Deploy.Backed.{Ends}
use atlasmirror.Deploy.Proved.{deploy_storage-Ends}
use atlasmirror.Deploy.Bound.{requests-deploy_storage}

-- The small world with a node on the VPS that shows the upload, and with both events there at once.
abbrev deploy_answer : (r : Request) → (h : History) → Answer r
deploy_answer (ssh node_peer) h = out (codes "{\"result\":{\"value\":\"16Uiu2\"}}")
deploy_answer (ssh public_spr) h = out (codes "{\"result\":{\"value\":\"spr:CiU1\"}}")
deploy_answer (ssh upload_events) h = out (
    codes
      "{\"data\":{\"arg0\":\"{\\\"cid\\\":\\\"zDvZRwzm4i6cSYFNEAUzyEGTJBroH2EJjc3FJNmbhoKRwagSZ1ny\\\"}\"}}")
deploy_answer (read_text p) h =
    some (codes "{\"event\":\"storageDownloadManifestDone\"}{\"event\":\"storageDownloadDone\"}")
deploy_answer r h = (host_with []).answer r h

abbrev deploy_host : Host
deploy_host = record {
  answer = deploy_answer;
  md5 = (host_with []).md5;
  sha256 = (host_with []).sha256;
  http_date = (host_with []).http_date;
  utc_date = (host_with []).utc_date;
}

deploy_storage-Ends_example : Ends deploy_host (deploy_storage deploy_host [])
deploy_storage-Ends_example =
    deploy_storage-Ends deploy_host concatenation-IsHashlib concatenation-IsHashlib [] Honest.start

requests-deploy_storage_example : length (deploy_storage deploy_host []).1 ≤ 842
requests-deploy_storage_example = requests-deploy_storage deploy_host []
