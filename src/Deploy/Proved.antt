-- ===== src/Deploy/Proved.antt =====
-- scripts/deploy_vps_storage.py: how a run ends, and what its evidence log rests on.
use atlasmirror.Prelude.{
  ℕ, zero, suc, Text, text_eq, text_eq_sound, ◌==◌, true, ◌≡◌, refl, arith, Option, none, some, ◌∷◌,
}
use atlasmirror.Outcome.{Result, ok, err}
use atlasmirror.Prelude.{Option-cases, inl, inr}
use atlasmirror.Strings.{strip}
use atlasmirror.Json.{Json}
use atlasmirror.Hashing.{Hashes, IsHashlib}
use atlasmirror.Host.{
  Host, Event, History, ssh, shell, stop_daemon, upload_events, sleep_ms, clock_ms, retrieved,
  write_log, public_log, on_option, ask,
}
use atlasmirror.Host.Keeps.{keeps_rules, Keeps-ask, Keeps-assert}
use atlasmirror.Host.Since.{Since}
use atlasmirror.Host.Triples.{
  Triple, After, Triple-bind, Triple-Keeps, Triple-perform, Triple-assert, Triple-from, Triple-to,
  Triple-pure,
}
use atlasmirror.Steps.Backing.{Honest, Holds, Holds-IsQuiet, honest, ◌▹◌, hash_file-Triple}
use atlasmirror.Reboot.Client.{expected_size, expected_md5, expected_sha256}
use atlasmirror.Deploy.Node.{uploaded_in, is_expected, wait_upload, upload_dataset}
use atlasmirror.Deploy.Client.{check_dataset, prove_retrieval, deploy_storage}
use atlasmirror.Deploy.Quiet.{
  run_ssh-Keeps, install_node-Keeps, start_storage-Keeps, read_node-Keeps, start_external-Keeps,
  fetch_manifest-Keeps, download_dataset-Keeps,
}
use atlasmirror.Deploy.Backed.{
  Uploaded, Uploaded-later, Served, Served-later, Backed, deploy_calm, Ends,
}

-- before anything is known
abbrev Nothing : History → Type 0
Nothing h = Unit

Nothing-later : (e : Event) (h : History) → Nothing h → Nothing (e ∷ h)
Nothing-later e h u = tt

module _ (host : Host) where
  -- If the CID that was found is the expected one, an upload was seen.
  Found : Option Json → History → Type 0
  Found cid = Holds (Backed host) (λ h. is_expected cid ≡ true → Uploaded h)

  wait_upload-Triple :
      (n : ℕ)
      → Triple (Holds (Backed host) Nothing) (wait_upload host n) Found (Honest (Backed host))
  unfolding wait_upload Found Holds Uploaded on_option
  wait_upload-Triple zero = Triple-pure none (λ h (u, g). ((λ e. cc), g))
  wait_upload-Triple (suc n) =
      Triple-bind
        (Triple-perform host (ssh upload_events)
          {Q = λ r h. Since (ssh upload_events, r) Nothing h × Honest (Backed host) h}
          (λ a h (u, g). (Since.now h tt, Honest.step _ a h (Backed.quiet _ h refl) g)))
        λ r. elim (Option-cases (uploaded_in r.stdout)) [
          | inl none_yet ↦ rw none_yet (
              Triple-from (λ h (s, g). (tt, g))
                (◌▹◌ (Backed host) Nothing-later
                  (Keeps-ask host (sleep_ms 2000) (Holds-IsQuiet (Backed host) Nothing-later) refl)
                  (wait_upload-Triple n)))
          | inr (cid, e) ↦
              rw e (Triple-pure (some cid) λ h (s, g). ((λ right. (r, rw e right, s)), g))
        ]

  upload_dataset-Triple :
      Triple
        (Holds (Backed host) Nothing)
        (upload_dataset host)
        (λ u. Holds (Backed host) Uploaded)
        (Honest (Backed host))
  unfolding upload_dataset Found Holds
  upload_dataset-Triple =
      let q = Holds-IsQuiet (Backed host) Nothing-later in
      ◌▹◌ (Backed host) Nothing-later (run_ssh-Keeps host q _) (
        ◌▹◌ (Backed host) Nothing-later (Keeps-ask host (sleep_ms 1000) q refl) (
          ◌▹◌ (Backed host) Nothing-later (run_ssh-Keeps host q _) (
            Triple-bind (wait_upload-Triple 60) λ uploaded.
              Triple-to (λ u h (right, (seen, g)). (seen right, g))
                (Triple-assert (is_expected uploaded) (λ h p. p.1)))))

  module _ (m_lib : IsHashlib host.md5) (s_lib : IsHashlib host.sha256) where
    check_dataset-Triple :
        Triple
          (Holds (Backed host) Uploaded)
          (check_dataset host)
          (λ file. Holds (Backed host) (Served host file))
          (Honest (Backed host))
    unfolding check_dataset Holds Served
    check_dataset-Triple =
        let q = Holds-IsQuiet (Backed host) Uploaded-later in
        Triple-bind (Triple-Keeps (search keeps_rules) (honest (Backed host) Uploaded-later))
          λ there. ◌▹◌ (Backed host) Uploaded-later (Keeps-assert there) (
            Triple-bind (hash_file-Triple (Backed host) Uploaded-later host m_lib s_lib retrieved)
              λ file. Triple-bind (Triple-assert (file.size == expected_size) (λ h p. p.1)) λ u.
                Triple-bind (Triple-assert (text_eq file.md5 expected_md5) (λ h p. p.1.1)) λ u.
                  Triple-bind (Triple-assert (text_eq file.sha256 expected_sha256) (λ h p. p.1.1.1))
                    λ u. Triple-pure file λ h (t, (m, (s, ((bytes, e, since), g)))). (
                      (
                        bytes,
                        e,
                        record {
                          size = ground (arith, s);
                          md5 = text_eq_sound _ _ m;
                          sha256 = text_eq_sound _ _ t;
                        },
                        since,
                      ),
                      g,
                    ))

    -- The condition with which a run returns.
    Concluded : History → Type 0
    Concluded h =
        (peer : Json) × (spr : Json) × (manifest : Text) × (download : Text) × (file : Hashes)
        × Since (write_log (public_log peer spr manifest download file), tt) (Served host file) h
        × Honest (Backed host) h

    prove_retrieval-Triple :
        (peer spr : Json)
        → Triple
            (Holds (Backed host) Uploaded)
            (prove_retrieval host peer spr)
            (λ u. Concluded)
            (Honest (Backed host))
    unfolding prove_retrieval Concluded ask Holds
    prove_retrieval-Triple peer spr =
        let q = Holds-IsQuiet (Backed host) Uploaded-later in
        let before = honest (Backed host) Uploaded-later in
        ◌▹◌ (Backed host) Uploaded-later (start_external-Keeps host q spr) (
          Triple-bind (Triple-Keeps (fetch_manifest-Keeps host q) before) λ manifest.
            Triple-bind (Triple-Keeps (download_dataset-Keeps host q) before) λ download.
              Triple-bind check_dataset-Triple λ file.
                let later = Served-later host file in
                let q' = Holds-IsQuiet (Backed host) later in
                ◌▹◌ (Backed host) later (Keeps-ask host (shell stop_daemon) q' refl) (
                  ◌▹◌ (Backed host) later (Keeps-ask host clock_ms q' refl) (
                    Triple-bind
                      (Triple-perform host
                        (write_log (public_log peer spr (strip manifest) (strip download) file))
                        {Q = λ a h.
                          Since
                            (
                              write_log
                                  (public_log peer spr (strip manifest) (strip download) file),
                              tt,
                            )
                            (Served host file) h
                          × Honest (Backed host) h}
                        (λ a h (c, g). (
                          Since.now h c,
                          Honest.step _ a h (Backed.evidence peer spr _ _ file h c) g,
                        )))
                      (λ a. Triple-pure tt (λ h (s, g). (peer, spr, _, _, file, s, g))))))

    deploy_storage-Triple :
        Triple
          (Holds (Backed host) Nothing)
          (deploy_storage host)
          (λ u. Concluded)
          (Honest (Backed host))
    unfolding deploy_storage
    deploy_storage-Triple =
        let q = Holds-IsQuiet (Backed host) Nothing-later in
        ◌▹◌ (Backed host) Nothing-later (install_node-Keeps host q) (
          ◌▹◌ (Backed host) Nothing-later (start_storage-Keeps host q) (
            Triple-bind (Triple-Keeps (read_node-Keeps host q) (honest (Backed host) Nothing-later))
              λ (peer, spr).
                Triple-bind upload_dataset-Triple λ u. prove_retrieval-Triple peer spr))

    ended :
        (r : Result (Unit {0})) (h : History)
        → After (λ u. Concluded) (Honest (Backed host)) (r, h)
        → Ends host (r, h)
    unfolding Concluded
    ended (ok tt) h (peer, spr, manifest, download, file, s, g) =
        Ends.success peer spr manifest download file h s g
    ended (err e) h g = Ends.failure e h g

    -- On a history in which each evidence log comes after a read of the retrieved file with the expected
    -- size and digests, and that after an answer of the node's event file that shows the expected CID,
    -- a run of deploy_storage leaves such a history, however it ends; if it returns, it wrote the log
    -- after both. The world is arbitrary; successive updates of either hash are one update with the
    -- concatenation.
    pub deploy_storage-Ends :
        (h : History) → Honest (Backed host) h → Ends host (deploy_storage host h)
    unfolding Holds
    deploy_storage-Ends h g =
        let (r, h') = deploy_storage host h in ended r h' (deploy_storage-Triple.at h (tt, g))
