-- ===== src/Henan/Checks.antt =====
-- scripts/verify_henan_e2e.py: the steps that publish, and what they rest on.
use atlasmirror.Prelude.{
  Text, text_eq, text_eq_sound, ◌==◌, true, ◌≡◌, refl, sym, ◌∙◌, subst, some, ◌∷◌, arith,
}
use atlasmirror.Strings.{includes}
use atlasmirror.Hashing.{Hashes, IsHashlib}
use atlasmirror.Host.{
  Host, Event, History, shell, query, clock_ms, retrieved, local_pbf, read_bytes, write_log,
  geofabrik_log, download_log, summary_log, ask,
}
use atlasmirror.Host.Keeps.{calm}
use atlasmirror.Host.Keeps.{
  Keeps, keeps_rules, ◌▸◌, Keeps-ask, Keeps-if, Keeps-pure, Keeps-bind, Keeps-assert,
}
use atlasmirror.Host.Since.{Since}
use atlasmirror.Host.Triples.{
  Triple, Triple-bind, Triple-Keeps, Triple-perform, Triple-assert, Triple-from, Triple-to,
  Triple-pure, Triple-given,
}
use atlasmirror.Steps.Laws.{run_local-Keeps}
use atlasmirror.Henan.Upload.{check_pbf, upload_file}
use atlasmirror.Henan.Download.{check_copy}
use atlasmirror.Henan.Verify.{Receipt, register_henan, query_registry, write_summary}
use atlasmirror.Henan.Quiet.{remove_if_there-Keeps, wait_cid-Keeps, cid_by_size-Keeps}
use atlasmirror.Steps.Backing.{
  Honest, Holds, Holds-IsQuiet, honest, Backed-ask, ◌▹◌, run-Triple, hash_file-Triple,
}
use atlasmirror.Henan.Backed.{
  Published, Downloaded, Copied, Registered, Queried, Backed, henan_calm, Published-later,
  Downloaded-later, Copied-later, Registered-later, Queried-later,
}

module _ (host : Host) where
  pub upload_file-Keeps :
      (file : Hashes) → Keeps (Holds (Backed host) (Downloaded host file)) (upload_file host file)
  unfolding upload_file
  upload_file-Keeps file =
      let later = Downloaded-later host file in
      let q = Holds-IsQuiet (Backed host) later in
      remove_if_there-Keeps host q _
      ▸ search keeps_rules
      ▸ search keeps_rules
      ▸ search keeps_rules
      ▸ Keeps-bind _ _ (run_local-Keeps host (calm q) _ refl) λ call.
        Keeps-bind _ _ (wait_cid-Keeps host q 60) λ seen.
          Keeps-bind _ _ (Keeps-if _ _ _ (cid_by_size-Keeps host q _) (Keeps-pure _)) λ cid.
            search keeps_rules
            ▸ Keeps-assert _
            ▸ search keeps_rules
            ▸ Backed-ask (Backed host) later host _ (λ h d. Backed.upload file cid _ h d)
            ▸ Keeps-pure cid

  pub register_henan-Triple :
      (cid : Text) (file : Hashes)
      → Triple
          (Holds (Backed host) (Copied host file))
          (register_henan host cid file)
          (λ receipt. Holds (Backed host) (Registered host cid file))
          (Honest (Backed host))
  unfolding register_henan Holds Registered
  register_henan-Triple cid file =
      let later = Registered-later host cid file in
      let q = Holds-IsQuiet (Backed host) later in
      Triple-bind
        (run-Triple (Backed host) (Copied-later host file) host _
          (λ h c. Backed.registers file cid h c))
        λ r.
          Triple-from (λ h ((e, s), g). ((r, e, s), g))
            (Triple-Keeps
              (search keeps_rules
                ▸ Backed-ask (Backed host) later host _ (λ h d. Backed.registered file cid _ _ h d)
                ▸ Keeps-pure _)
              (honest (Backed host) later))

  pub query_registry-Triple :
      (cid : Text) (file : Hashes)
      → Triple
          (Holds (Backed host) (Registered host cid file))
          (query_registry host cid file)
          (λ u. Holds (Backed host) (Queried host cid file))
          (Honest (Backed host))
  unfolding query_registry Holds Queried
  query_registry-Triple cid file =
      Triple-bind
        (run-Triple (Backed host) (Registered-later host cid file) host _
          (λ h c. Backed.quiet _ h refl))
        λ r. Triple-bind (Triple-assert (includes cid r.stdout) (λ h p. p.1)) λ u.
          Triple-bind (Triple-assert (includes file.md5 r.stdout) (λ h p. p.1.1)) λ u.
            let C = λ (h : History).
              (includes cid r.stdout ≡ true)
              × (includes file.md5 r.stdout ≡ true)
              × Since (shell query, r) (Registered host cid file) h in
            let later : (e : Event) (h : History) → C h → C (e ∷ h) =
              (λ e h (c, m, s). (c, m, Since.later e h s)) in
            Triple-from (λ h (m, (c, ((e, s), g))). ((c, m, s), g))
              (Triple-to (λ u h ((c, m, s), g). ((r, c, m, s), g))
                (Triple-Keeps
                  (Backed-ask (Backed host) later host _
                    (λ h (c, m, s). Backed.queried file cid r h c m s))
                  (honest (Backed host) later)))

  pub write_summary-Triple :
      (cid : Text) (file : Hashes) (receipt : Receipt)
      → Triple
          (Holds (Backed host) (Queried host cid file))
          (write_summary host cid file receipt)
          (λ u h.
            Since
              (write_log (summary_log file cid receipt.tx_hash receipt.block_num), tt)
              (Queried host cid file)
              h
            × Honest (Backed host) h)
          (Honest (Backed host))
  unfolding write_summary Holds ask
  write_summary-Triple cid file receipt =
      let later = Queried-later host cid file in
      let q = Holds-IsQuiet (Backed host) later in
      ◌▹◌ (Backed host) later (Keeps-ask host clock_ms q refl) (
        Triple-bind
          (Triple-perform host (write_log (summary_log file cid receipt.tx_hash receipt.block_num))
            (λ a h (c, g). (Since.now h c, Honest.step _ a h (Backed.summary file cid _ _ h c) g)))
          (λ a. Triple-pure tt (λ h p. p)))

  hashes_eq : (a b : Hashes) → a.size ≡ b.size → a.md5 ≡ b.md5 → a.sha256 ≡ b.sha256 → a ≡ b
  hashes_eq a b p q r = λ i. record { size = p i; md5 = q i; sha256 = r i }

  module _ (m_lib : IsHashlib host.md5) (s_lib : IsHashlib host.sha256) where
    pub check_copy-Triple :
        (cid : Text) (file : Hashes)
        → Triple
            (Holds (Backed host) (Downloaded host file))
            (check_copy host cid file)
            (λ u. Holds (Backed host) (Copied host file))
            (Honest (Backed host))
    unfolding check_copy Holds Copied
    check_copy-Triple cid file =
        let later = Downloaded-later host file in
        let later' = Copied-later host file in
        let q = Holds-IsQuiet (Backed host) later in
        let q' = Holds-IsQuiet (Backed host) later' in
        Triple-bind (Triple-Keeps (search keeps_rules) (honest (Backed host) later)) λ there.
          ◌▹◌ (Backed host) later (Keeps-assert there) (
            Triple-bind (hash_file-Triple (Backed host) later host m_lib s_lib retrieved) λ copy.
              Triple-bind (Triple-assert (copy.size == file.size) (λ h p. p.1)) λ u.
                Triple-bind (Triple-assert (text_eq copy.sha256 file.sha256) (λ h p. p.1.1)) λ u.
                  Triple-bind (Triple-assert (text_eq copy.md5 file.md5) (λ h p. p.1.1.1)) λ u.
                    Triple-from
                      (λ h (m, (t, (s, ((bytes, e, since), g)))).
                        let same =
                          hashes_eq copy file (ground (arith, s)) (text_eq_sound _ _ m)
                            (text_eq_sound _ _ t) in
                        (same, ((bytes, sym same ∙ e, since), g)))
                      (Triple-given λ same.
                        Triple-Keeps
                          (Keeps-ask host clock_ms q' refl
                            ▸ Backed-ask (Backed host) later' host _ (λ h d.
                              subst (λ c. Backed host (write_log (download_log cid file c)) h)
                                (sym same) (Backed.download file cid h d)))
                          (honest (Backed host) later')))

    pub check_pbf-Triple :
        (published : Text)
        → Triple
            (Holds (Backed host) (Published published))
            (check_pbf host published)
            (λ file. Holds (Backed host) (Downloaded host file))
            (Honest (Backed host))
    unfolding check_pbf Holds Downloaded
    check_pbf-Triple published =
        Triple-bind
          (hash_file-Triple (Backed host) (Published-later published) host m_lib s_lib local_pbf)
          λ file. Triple-bind (Triple-assert (text_eq file.md5 published) (λ h p. p.1)) λ u.
            let later = Downloaded-later host file in
            let q = Holds-IsQuiet (Backed host) later in
            Triple-from
              (λ h (m, ((bytes, e, since), g)).
                let same = text_eq_sound _ _ m in
                (
                  same,
                  (
                    (
                      bytes,
                      e,
                      subst (λ t. Since (read_bytes local_pbf, some bytes) (Published t) h)
                          (sym same) since,
                    ),
                    g,
                  ),
                ))
              (Triple-given λ same. ◌▹◌ (Backed host) later (Keeps-ask host clock_ms q refl) (
                ◌▹◌ (Backed host) later
                  (Backed-ask (Backed host) later host _ (λ h d.
                    subst (λ t. Backed host (write_log (geofabrik_log t file)) h) same
                      (Backed.geofabrik file h d)))
                  (Triple-pure file (λ h p. p))))
