-- ===== src/Coverage/Gate.antt =====
-- scripts/run_a1_coverage.py: the histories of a run.
use atlasmirror.Prelude.{
  ℕ, zero, suc, Text, text_eq, text_eq_sound, true, false, ◌==◌, ◌≡◌, refl, sym, ap, arith, Option,
  none, some, List, [], ◌∷◌,
}
use atlasmirror.Outcome.{io_error}
use atlasmirror.Hashing.{IsHashlib, digest, compute_hashes, compute_hashes_whole}
use atlasmirror.Manifest.{Entry}
use atlasmirror.Runner.{Receipt}
use atlasmirror.Host.{
  Host, Registration, Request, Answer, Event, History, shell, register, read_bytes, read_manifest,
  retrieved, exists, perform, ask,
}
use atlasmirror.Host.Keeps.{
  publishes, is_registration, Keeps, IsQuiet, Keeps-pure, Keeps-bind, Keeps-if, Keeps-assert,
  Keeps-on_option, ◌▸◌, keeps_rules,
}
use atlasmirror.Host.Triples.{
  Triple, Triple-bind, Triple-Keeps, Triple-perform, Triple-or_raise, Triple-assert, Triple-from,
  Triple-pure, Triple-if, ends,
}
use atlasmirror.Region.{next_timestamp}
use atlasmirror.Coverage.Plan.{PlanItem}
use atlasmirror.Coverage.Stage.{hashes_of}
use atlasmirror.Coverage.Retrieve.{check_retrieved}
use atlasmirror.Coverage.Register.{
  save_progress, commit_progress, submit, confirmed, register_region, last_entry,
}
use atlasmirror.Coverage.Run.{preflight, resume, cover, cover_all, run_coverage}
use atlasmirror.Coverage.Quiet.{
  run_ssh-Keeps, get_vps_spr-Keeps, fetch_geofabrik_metadata-Keeps, verified_download-Keeps,
  transfer-Keeps, host_file-Keeps, remove_if_there-Keeps,
}
use atlasmirror.Coverage.QuietClient.{retrieve-Keeps}

-- The retrieved file was read, and its bytes have this MD5.
pub data WasAttested (host : Host) (md5 : Text) : History → Type 0 where
  read :
      (bytes : List ℕ) (h : History)
      → digest host.md5 bytes ≡ md5
      → WasAttested host md5 ((read_bytes retrieved, some bytes) ∷ h)
  earlier : (e : Event) (h : History) → WasAttested host md5 h → WasAttested host md5 (e ∷ h)

-- The histories in which each registration is of an MD5 that was attested before.
pub data Attested (host : Host) : History → Type 0 where
  start : Attested host []
  other :
      (r : Request) (a : Answer r) (h : History)
      → is_registration r ≡ false
      → Attested host h
      → Attested host ((r, a) ∷ h)
  registration :
      (reg : Registration) (a : Answer (shell (register reg))) (h : History)
      → WasAttested host reg.md5 h
      → Attested host h
      → Attested host ((shell (register reg), a) ∷ h)

no_registration : (r : Request) → publishes r ≡ false → is_registration r ≡ false
no_registration r e = ground (arith, e)

module _ (host : Host) where
  Attested-IsQuiet : IsQuiet (Attested host)
  Attested-IsQuiet = record { at = λ r a h e g. Attested.other r a h (no_registration r e) g }

  -- attested with this MD5, in such a history
  abbrev Ready : Text → History → Type 0
  Ready md5 h = WasAttested host md5 h × Attested host h

  Ready-IsQuiet : (md5 : Text) → IsQuiet (Ready md5)
  Ready-IsQuiet md5 = record {
    at = λ r a h e p. (WasAttested.earlier _ h p.0, Attested.other r a h (no_registration r e) p.1);
  }

  perform-Attested :
      (r : Request) → is_registration r ≡ false → Keeps (Attested host) (perform host r)
  unfolding perform
  perform-Attested r e = record { at = λ h g. Attested.other r (host.answer r h) h e g }

  ask-Attested : (r : Request) → is_registration r ≡ false → Keeps (Attested host) (ask host r)
  unfolding ask
  ask-Attested r e = Keeps-bind _ _ (perform-Attested r e) (λ a. Keeps-pure tt)

  submit-Ready :
      (n : ℕ) (reg : Registration) (receipt : Receipt) (seen : Text)
      → Keeps (Ready reg.md5) (submit host n reg receipt seen)
  unfolding submit perform
  submit-Ready zero reg receipt seen = Keeps-pure _
  submit-Ready (suc n) reg receipt seen =
      let q = Ready-IsQuiet reg.md5 in
      Keeps-bind _ _
        (record { at = λ h (w, g). (WasAttested.earlier _ h w, Attested.registration reg _ h w g) })
        λ r.
          search keeps_rules
          ▸ Keeps-bind _ _ (search keeps_rules)
              λ r'. Keeps-if _ _ _ (Keeps-pure _) (search keeps_rules ▸ submit-Ready n reg _ _)

  commit_progress-Attested :
      (n : ℕ) (last : Option Entry) → Keeps (Attested host) (commit_progress host n last)
  unfolding commit_progress
  commit_progress-Attested n none = Keeps-pure tt
  commit_progress-Attested n (some e) = ask-Attested _ refl

  save_progress-Attested : (es : List Entry) → Keeps (Attested host) (save_progress host es)
  unfolding save_progress
  save_progress-Attested es =
      ask-Attested _ refl
      ▸ ask-Attested _ refl
      ▸ ask-Attested _ refl
      ▸ ask-Attested _ refl
      ▸ commit_progress-Attested _ (last_entry es)

  register_region-Ready :
      (item : PlanItem) (cid md5 version : Text)
      → Keeps (Ready md5) (register_region host item cid md5 version)
  unfolding register_region confirmed next_timestamp
  register_region-Ready item cid md5 version =
      let q = Ready-IsQuiet md5 in
      Keeps-bind _ _ (search keeps_rules) λ ts.
        Keeps-bind _ _ (submit-Ready 3 _ _ []) λ (receipt, seen).
          Keeps-bind _ _ (search keeps_rules depth 12) λ (tx, block). Keeps-pure _

  module _ (m_lib : IsHashlib host.md5) (s_lib : IsHashlib host.sha256) where
    hashes_md5 :
        (bytes : List ℕ) → digest host.md5 bytes ≡ (compute_hashes host.md5 host.sha256 bytes).md5
    hashes_md5 bytes =
        sym (ap (λ x. x.md5) (compute_hashes_whole host.md5 host.sha256 m_lib s_lib bytes))

    hashes_of-Triple :
        Triple
          (Attested host)
          (hashes_of host retrieved)
          (λ hashes. Ready hashes.md5)
          (Attested host)
    unfolding hashes_of
    hashes_of-Triple =
        Triple-bind
          (Triple-perform host (read_bytes retrieved)
            {Q = λ found h.
              ((bytes : List ℕ) → found ≡ some bytes → WasAttested host (digest host.md5 bytes) h)
              × Attested host h}
            (λ a h g.
              ((λ bytes e. rw e (WasAttested.read bytes h refl)), Attested.other _ a h refl g)))
          λ found. Triple-bind (Triple-or_raise io_error found (λ h p. p.1)) λ bytes.
            Triple-pure _
              (λ h (there, (attested, g)). (rw (hashes_md5 bytes) at (attested bytes there), g))

    check_retrieved-Triple :
        (name : Text) (f_size : ℕ) (md5 : Text)
        → Triple
            (Attested host)
            (check_retrieved host name f_size md5)
            (λ hashes. Ready md5)
            (Attested host)
    unfolding check_retrieved
    check_retrieved-Triple name f_size md5 =
        Triple-bind (Triple-Keeps (perform-Attested (exists retrieved) refl) (λ h g. g)) λ there.
          Triple-bind (Triple-Keeps (Keeps-assert there) (λ h g. g)) λ u.
            Triple-bind hashes_of-Triple λ hashes.
              Triple-bind (Triple-Keeps (Keeps-assert (hashes.size == f_size)) (λ h p. p.1)) λ u.
                Triple-bind (Triple-assert (text_eq hashes.md5 md5) (λ h p. p.1)) λ u.
                  Triple-from (λ h (same, (w, g)). (rw (text_eq_sound _ _ same) at w, g))
                    (Triple-Keeps
                      (let q = Ready-IsQuiet md5 in
                        remove_if_there-Keeps host q retrieved
                        ▸ run_ssh-Keeps host q true _
                        ▸ Keeps-pure hashes)
                      (λ h p. p.1))

    cover-Triple :
        (item : PlanItem) (entries : List Entry)
        → Triple (Attested host) (cover host item entries) (λ es. Attested host) (Attested host)
    unfolding cover
    cover-Triple item entries =
        let q = Attested-IsQuiet in
        Triple-bind (Triple-Keeps (fetch_geofabrik_metadata-Keeps host q _ _) (λ h g. g))
          λ (md5, version).
            Triple-bind (Triple-Keeps (verified_download-Keeps host q _ _ md5) (λ h g. g)) λ f_size.
              Triple-bind (Triple-Keeps (transfer-Keeps host q _ f_size) (λ h g. g)) λ u.
                Triple-bind (Triple-Keeps (host_file-Keeps host q _ f_size) (λ h g. g)) λ cid.
                  Triple-bind (Triple-Keeps (retrieve-Keeps host q 5 cid f_size false) (λ h g. g))
                    λ u. Triple-bind (check_retrieved-Triple item.region f_size md5) λ hashes.
                      Triple-bind
                        (Triple-Keeps (register_region-Ready item cid md5 version) (λ h p. p.1))
                        λ (reg, tx, block).
                          Triple-from (λ h p. p.1)
                            (Triple-Keeps (save_progress-Attested _ ▸ Keeps-pure _) (λ h g. g))

    cover_all-Triple :
        (existing : List Text) (items : List PlanItem) (entries : List Entry)
        → Triple
            (Attested host)
            (cover_all host existing items entries)
            (λ es. Attested host)
            (Attested host)
    unfolding cover_all
    cover_all-Triple existing [] entries = Triple-pure entries (λ h g. g)
    cover_all-Triple existing (item ∷ items) entries =
        Triple-bind (Triple-if _ _ _ (Triple-pure entries (λ h g. g)) (cover-Triple item entries))
          λ entries'. cover_all-Triple existing items entries'

    resume-Attested : Keeps (Attested host) (resume host)
    unfolding resume
    resume-Attested =
        let q = Attested-IsQuiet in
        Keeps-bind _ _ (search keeps_rules) λ there. Keeps-if _ _ _ (Keeps-pure _) (
          Keeps-bind _ _ (perform-Attested read_manifest refl)
            λ found. Keeps-on_option found _ _ (Keeps-pure _) (λ es. Keeps-pure es))

    run_coverage-Triple :
        (plan : List PlanItem)
        → Triple (Attested host) (run_coverage host plan) (λ es. Attested host) (Attested host)
    unfolding run_coverage preflight
    run_coverage-Triple plan =
        let q = Attested-IsQuiet in
        Triple-bind (Triple-Keeps (search (keeps_rules, run_ssh-Keeps) depth 8) (λ h g. g)) λ u.
          Triple-bind (Triple-Keeps (get_vps_spr-Keeps host q) (λ h g. g)) λ node.
            Triple-bind (Triple-Keeps resume-Attested (λ h g. g)) λ entries.
              Triple-bind (Triple-Keeps (save_progress-Attested entries) (λ h g. g)) λ u.
                Triple-bind (cover_all-Triple _ plan entries)
                  λ final. Triple-Keeps (search keeps_rules depth 8) (λ h g. g)

-- A run on a history in which each registration is of an MD5 that the bytes of the retrieved file
-- had when they were read before leaves such a history, whatever the world answers, whatever the plan,
-- and whether the run returns, raises or exits; for hashes of which successive updates are one
-- update with the concatenation.
pub run_coverage-Attested :
    (host : Host) (plan : List PlanItem) (h : History)
    → IsHashlib host.md5
    → IsHashlib host.sha256
    → Attested host h
    → Attested host (run_coverage host plan h).1
run_coverage-Attested host plan h m_lib s_lib =
    ends (run_coverage-Triple host m_lib s_lib plan) (λ es h g. g) h
