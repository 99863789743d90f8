-- ===== src/Henan/Examples.antt =====
-- A small world for scripts/verify_henan_e2e.py, and the properties in it.
use atlasmirror.Prelude.{◌≤◌, codes, some, [], length}
use atlasmirror.Host.{Host, Request, Answer, History, http_get, read_text}
use atlasmirror.Host.World.{host_with, concatenation-IsHashlib}
use atlasmirror.Henan.Verify.{verify_henan}
use atlasmirror.Henan.Backed.{Ends}
use atlasmirror.Steps.Backing.{Honest}
use atlasmirror.Henan.Verified.{verify_henan-Ends}
use atlasmirror.Henan.Bound.{requests-verify_henan}

-- Geofabrik publishes the digest of the small world's file, and the events of the upload and of the
-- download are there at once.
abbrev henan_answer : (r : Request) → (h : History) → Answer r
henan_answer (http_get u) h = some (codes "0123456789abcdef0123456789abcdef  henan-latest.osm.pbf")
henan_answer (read_text p) h = some (codes "{\"event\":\"storageDownloadDone\",\"cid\":\"zD\"}")
henan_answer r h = (host_with []).answer r h

abbrev pub henan_host : Host
henan_host = record {
  answer = henan_answer;
  md5 = (host_with []).md5;
  sha256 = (host_with []).sha256;
  http_date = (host_with []).http_date;
  utc_date = (host_with []).utc_date;
}

verify_henan-Ends_example : Ends henan_host (verify_henan henan_host [])
verify_henan-Ends_example =
    verify_henan-Ends henan_host concatenation-IsHashlib concatenation-IsHashlib [] Honest.start

requests-verify_henan_example : length (verify_henan henan_host []).1 ≤ 444
requests-verify_henan_example = requests-verify_henan henan_host []
