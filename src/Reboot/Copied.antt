-- ===== src/Reboot/Copied.antt =====
-- scripts/verify_reboot_survival.py: the check of the retrieved file.
use atlasmirror.Prelude.{
  ℕ, text_eq, text_eq_sound, length, true, ◌==◌, ◌≡◌, refl, some, List, ◌∷◌, arith,
}
use atlasmirror.Hashing.{digest, Hashes, IsHashlib, compute_hashes_whole}
use atlasmirror.Host.{Host, History, read_bytes, retrieved}
use atlasmirror.Host.Keeps.{keeps_rules, Keeps-assert}
use atlasmirror.Host.Triples.{
  Triple, Triple-bind, Triple-Keeps, Triple-or_raise, Triple-assert, Triple-pure,
}
use atlasmirror.Outcome.{io_error}
use atlasmirror.Steps.{hash_file}
use atlasmirror.Reboot.Client.{check_file, expected_size, expected_md5, expected_sha256}
use atlasmirror.Reboot.Story.{
  Milestone, copied, has_rebooted, Proven, At, At-IsQuiet, Latest, Latest-At, Latest-reach,
  IsExpected, is_exact, and_false,
}
use atlasmirror.Reboot.Stages.{both, ◌▹◌, perform-Latest, proven}

module _ (host : Host) (ms : List Milestone) where
  module _ (m_lib : IsHashlib host.md5) (s_lib : IsHashlib host.sha256) where
    -- The file that was read has these hashes.
    HasHashes : List ℕ → Hashes → Type 0
    HasHashes bytes file = file ≡ record {
      size = length bytes;
      md5 = digest host.md5 bytes;
      sha256 = digest host.sha256 bytes;
    }

    WasHashed : Hashes → History → Type 0
    WasHashed file h =
        (bytes : List ℕ) × HasHashes bytes file
        × Latest host ms (read_bytes retrieved) (some bytes) h

    WasHashed-Proven : (file : Hashes) (h : History) → WasHashed file h → Proven host h
    unfolding WasHashed
    WasHashed-Proven file h (bytes, e, p) = (Latest-At host p).1

    hash_file-Triple : Triple (At host ms) (hash_file host retrieved) WasHashed (Proven host)
    unfolding hash_file WasHashed HasHashes
    hash_file-Triple =
        Triple-bind
          (perform-Latest host ms (read_bytes retrieved) (and_false (has_rebooted ms)) refl)
          λ found.
            Triple-bind (Triple-or_raise io_error found (λ h p. (Latest-At host p).1)) λ bytes.
              Triple-pure _ (λ h (there, p).
                (bytes, compute_hashes_whole host.md5 host.sha256 m_lib s_lib bytes, rw there at p))

    is_exact_lem :
        (bytes : List ℕ) (file : Hashes)
        → HasHashes bytes file
        → (file.size == expected_size) ≡ true
        → text_eq file.md5 expected_md5 ≡ true
        → text_eq file.sha256 expected_sha256 ≡ true
        → is_exact host (some bytes) ≡ true
    unfolding HasHashes
    is_exact_lem bytes file e size md5 sha256 =
        both (both (rw e at size) (rw e at md5)) (rw e at sha256)

    pub check_file-Triple :
        Triple
          (At host ms)
          (check_file host)
          (λ file h. IsExpected file × At host (copied ∷ ms) h)
          (Proven host)
    unfolding check_file WasHashed
    check_file-Triple =
        let q = At-IsQuiet host ms in
        Triple-bind (Triple-Keeps (search keeps_rules) (proven host ms)) λ there.
          Keeps-assert there
          ▹ Triple-bind hash_file-Triple λ file.
            Triple-bind (Triple-assert (file.size == expected_size) (WasHashed-Proven file)) λ u.
              Triple-bind
                (Triple-assert (text_eq file.md5 expected_md5)
                  (λ h (s, w). WasHashed-Proven file h w))
                λ u.
                  Triple-bind
                    (Triple-assert (text_eq file.sha256 expected_sha256)
                      (λ h (m, (s, w)). WasHashed-Proven file h w))
                    λ u. Triple-pure file λ h (t, (m, (s, (bytes, e, p)))). (
                      record {
                        size = ground (arith, s);
                        md5 = text_eq_sound _ _ m;
                        sha256 = text_eq_sound _ _ t;
                      },
                      Latest-reach host copied (is_exact_lem bytes file e s m t) p,
                    )
