-- ===== src/Henan/Verified.antt =====
-- scripts/verify_henan_e2e.py: how a run ends, and what is registered and logged on the way.
use atlasmirror.Prelude.{Text, Option}
use atlasmirror.Outcome.{Result, ok, err}
use atlasmirror.Hashing.{Hashes, IsHashlib}
use atlasmirror.Host.{Host, History, write_log, summary_log}
use atlasmirror.Host.Since.{Since}
use atlasmirror.Host.Triples.{Triple, After, Triple-bind, Triple-Keeps, Triple-to}
use atlasmirror.Henan.Verify.{publish, verify_henan}
use atlasmirror.Henan.Quiet.{
  fetch_pbf-Keeps, start_storage-Keeps, download_file-Keeps, stop_storage-Keeps, deploy-Keeps,
}
use atlasmirror.Henan.Stages.{fetch_published-Triple}
use atlasmirror.Steps.Backing.{Honest, Holds, Holds-IsQuiet, honest, ◌▹◌}
use atlasmirror.Henan.Backed.{
  Downloaded, Queried, Backed, henan_calm, Ends, Published-later, Downloaded-later, Copied-later,
}
use atlasmirror.Henan.Checks.{
  upload_file-Keeps, register_henan-Triple, query_registry-Triple, write_summary-Triple,
  check_copy-Triple, check_pbf-Triple,
}

module _ (host : Host) (m_lib : IsHashlib host.md5) (s_lib : IsHashlib host.sha256) where
  -- The condition with which a run returns.
  Concluded : History → Type 0
  Concluded h =
      (file : Hashes) × (cid : Text) × (tx : Option Text) × (block : Option Text) × Since
        (write_log (summary_log file cid tx block), tt) (Queried host cid file) h
      × Honest (Backed host) h

  publish-Triple :
      (cid : Text) (file : Hashes)
      → Triple
          (Holds (Backed host) (Downloaded host file))
          (publish host cid file)
          (λ u. Concluded)
          (Honest (Backed host))
  unfolding publish Concluded
  publish-Triple cid file =
      let later = Downloaded-later host file in
      let q = Holds-IsQuiet (Backed host) later in
      let later' = Copied-later host file in
      let q' = Holds-IsQuiet (Backed host) later' in
      ◌▹◌ (Backed host) later (download_file-Keeps host q cid) (
        Triple-bind (check_copy-Triple host m_lib s_lib cid file) λ u.
          ◌▹◌ (Backed host) later' (stop_storage-Keeps host q') (
            ◌▹◌ (Backed host) later' (deploy-Keeps host q') (
              Triple-bind (register_henan-Triple host cid file) λ receipt.
                Triple-bind (query_registry-Triple host cid file) λ u.
                  Triple-to (λ u h (s, g). (file, cid, _, _, s, g))
                    (write_summary-Triple host cid file receipt))))

  verify_henan-Triple :
      Triple (Honest (Backed host)) (verify_henan host) (λ u. Concluded) (Honest (Backed host))
  unfolding verify_henan
  verify_henan-Triple = Triple-bind (fetch_published-Triple host) λ published.
      let later = Published-later published in
      ◌▹◌ (Backed host) later (fetch_pbf-Keeps host (Holds-IsQuiet (Backed host) later)) (
        Triple-bind (check_pbf-Triple host m_lib s_lib published) λ file.
          let later' = Downloaded-later host file in
          ◌▹◌ (Backed host) later' (start_storage-Keeps host (Holds-IsQuiet (Backed host) later')) (
            Triple-bind (Triple-Keeps (upload_file-Keeps host file) (honest (Backed host) later'))
              λ cid. publish-Triple cid file))

  ended :
      (r : Result (Unit {0})) (h : History)
      → After (λ u. Concluded) (Honest (Backed host)) (r, h)
      → Ends host (r, h)
  unfolding Concluded
  ended (ok tt) h (file, cid, tx, block, s, g) = Ends.success file cid tx block h s g
  ended (err e) h g = Ends.failure e h g

  -- A run of verify_henan on a history in which all that is published rests on what happened before leaves
  -- such a history, however it ends. This order is meant: Geofabrik's answer published an MD5; the
  -- local file was read, and its bytes have it; the retrieved file was read, and its bytes have the
  -- same size and digests; the file's MD5 was registered with its CID, with return code 0; a query
  -- showed both. The logs of the MD5 and of the upload come after the second, the log of the download
  -- and the registration after the third, the log of the registration after the fourth, the logs of
  -- the query and the summary after the fifth. If the run returns, the summary was written with all
  -- five behind it. The world is arbitrary; successive updates of either hash are one update with
  -- the concatenation.
  pub verify_henan-Ends : (h : History) → Honest (Backed host) h → Ends host (verify_henan host h)
  verify_henan-Ends h g =
      let (r, h') = verify_henan host h in ended r h' (verify_henan-Triple.at h g)
