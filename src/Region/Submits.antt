-- ===== src/Region/Submits.antt =====
-- scripts/process_one_region.py: how often a run registers.
use atlasmirror.Prelude.{
  ℕ, zero, suc, ◌+◌, ◌≤◌, ◌≡◌, refl, arith, Text, false, List, ◌∷◌, length, keep,
}
use atlasmirror.Outcome.{value_error, io_error}
use atlasmirror.Dict
use atlasmirror.Catalog.{CatalogEntry}
use atlasmirror.Manifest.{Entry}
use atlasmirror.Runner.{Receipt}
use atlasmirror.Host.{
  Host, Registration, Request, Answer, History, shell, register, read_manifest, perform, ask, ◌>>=◌,
}
use atlasmirror.Host.Keeps.{
  publishes, is_registration, Keeps, IsQuiet, keeps_rules, Keeps-pure, Keeps-assert, Keeps-bind,
  Keeps-or_raise,
}
use atlasmirror.Host.Triples.{
  Triple, Triple-pure, Triple-raise, Triple-bind, Triple-Keeps, Triple-perform, Triple-if,
  Triple-on_option, ends,
}
use atlasmirror.Region.Quiet.{
  run_ssh-Keeps, fetch_published_md5-Keeps, fetch_version-Keeps, stage_file-Keeps, host_file-Keeps,
  retrieve-Keeps,
}
use atlasmirror.Region.Fetch.{Info, regions_info}
use atlasmirror.Region.Publish.{
  submit, next_timestamp, confirmed, register_region, check_retrieved, save_manifest_and_docs,
  publish, process_new, process_known, process_region,
}

abbrev pub registrations : History → ℕ
registrations h = length (keep (λ e. is_registration e.0) h)

-- At most `k` registrations, with `n` more.
Within : ℕ → ℕ → History → Type 0
Within k n h = registrations h + n ≤ k

quiet_registration : (r : Request) → publishes r ≡ false → is_registration r ≡ false
quiet_registration r h = ground (arith, h)

module _ (host : Host) (k : ℕ) where
  Within-perform :
      (n : ℕ) (r : Request) → is_registration r ≡ false → Keeps (Within k n) (perform host r)
  unfolding perform Within
  Within-perform n r e = record { at = λ h p. ground (arith, e, p) }

  Within-ask : (n : ℕ) (r : Request) → is_registration r ≡ false → Keeps (Within k n) (ask host r)
  unfolding ask
  Within-ask n r e = Keeps-bind _ _ (Within-perform n r e) (λ a. Keeps-pure tt)

  Within-IsQuiet : (n : ℕ) → IsQuiet (Within k n)
  unfolding Within
  Within-IsQuiet n = record { at = λ r a h e p. ground (arith, quiet_registration r e, p) }

  fewer : (n : ℕ) (h : History) → Within k n h → Within k 0 h
  unfolding Within
  fewer n h p = omega (arith, p)

  counted :
      (n : ℕ) (reg : Registration) (a : Answer (shell (register reg))) (h : History)
      → Within k (suc n) h
      → Within k n ((shell (register reg), a) ∷ h)
  unfolding Within
  counted n reg a h p = omega (arith, p)

  submit-Within :
      (n : ℕ) (reg : Registration) (receipt : Receipt)
      → Triple (Within k n) (submit host n reg receipt) (λ r. Within k 0) (Within k 0)
  unfolding submit
  submit-Within zero reg receipt = Triple-pure receipt (λ h p. p)
  submit-Within (suc n) reg receipt =
      let q = Within-IsQuiet n in
      Triple-bind (Triple-perform host (shell (register reg)) {Q = λ a. Within k n} (counted n reg))
        λ r. Triple-bind (Triple-Keeps (search keeps_rules) (fewer n)) λ u.
          Triple-bind (Triple-Keeps (search keeps_rules) (fewer n)) λ r'.
            Triple-if _ _ _ (Triple-pure _ (fewer n))
              (Triple-bind (Triple-Keeps (search keeps_rules) (fewer n)) λ u. submit-Within n reg _)

  check_retrieved-Within : (n : ℕ) (md5 : Text) → Keeps (Within k n) (check_retrieved host md5)
  unfolding check_retrieved
  check_retrieved-Within n md5 = let q = Within-IsQuiet n in search keeps_rules depth 8

  register_region-Within :
      (name cid md5 url version : Text)
      → Triple
          (Within k 3)
          (register_region host name cid md5 url version)
          (λ x. Within k 0)
          (Within k 0)
  unfolding register_region next_timestamp confirmed
  register_region-Within name cid md5 url version =
      Triple-bind (Triple-Keeps (let q = Within-IsQuiet 3 in search keeps_rules) (fewer 3)) λ ts.
        Triple-bind (submit-Within 3 _ _) λ receipt.
          Triple-bind (Triple-Keeps (search keeps_rules) (λ h p. p)) λ x. Triple-pure _ (λ h p. p)

  save_manifest_and_docs-Within :
      (es : List Entry) (name : Text) → Keeps (Within k 0) (save_manifest_and_docs host es name)
  unfolding save_manifest_and_docs Within ◌>>=◌ perform
  save_manifest_and_docs-Within es name = search (keeps_rules, Within-ask) depth 8

  publish-Within :
      (name : Text) (info : Info) (entries : List Entry) (md5 version : Text) (size : ℕ)
      (cid : Text)
      → Triple
          (Within k 3)
          (publish host name info entries md5 version size cid)
          (λ u. Within k 0)
          (Within k 0)
  unfolding publish
  publish-Within name info entries md5 version size cid =
      let q = Within-IsQuiet 3 in
      Triple-bind (Triple-Keeps (run_ssh-Keeps host q _) (fewer 3)) λ r.
        Triple-bind (Triple-Keeps (retrieve-Keeps host q 3 cid size) (fewer 3)) λ ok.
          Triple-bind (Triple-Keeps (Keeps-assert ok) (fewer 3)) λ u.
            Triple-bind (Triple-Keeps (check_retrieved-Within 3 md5) (fewer 3)) λ u.
              Triple-bind (register_region-Within name cid md5 info.pbf_url version)
                λ (reg, tx, block).
                  Triple-bind (Triple-Keeps (save_manifest_and_docs-Within _ name) (λ h p. p))
                    λ u. Triple-Keeps (Within-ask 0 _ refl) (λ h p. p)

  process_new-Within :
      (name : Text) (info : Info) (entries : List Entry)
      → Triple (Within k 3) (process_new host name info entries) (λ u. Within k 0) (Within k 0)
  unfolding process_new
  process_new-Within name info entries =
      let q = Within-IsQuiet 3 in
      Triple-bind (Triple-Keeps (fetch_published_md5-Keeps host q info.md5_url) (fewer 3)) λ md5.
        Triple-bind (Triple-Keeps (fetch_version-Keeps host q info.pbf_url) (fewer 3)) λ version.
          Triple-bind (Triple-Keeps (stage_file-Keeps host q _ info.pbf_url md5) (fewer 3)) λ size.
            Triple-bind (Triple-Keeps (host_file-Keeps host q _ _ size) (fewer 3))
              λ cid. publish-Within name info entries md5 version size cid

  process_known-Within :
      (name : Text) (info : Info)
      → Triple (Within k 3) (process_known host name info) (λ u. Within k 0) (Within k 0)
  unfolding process_known
  process_known-Within name info =
      Triple-bind (Triple-Keeps (Within-perform 3 read_manifest refl) (fewer 3)) λ found.
        Triple-bind (Triple-Keeps (Keeps-or_raise io_error found) (fewer 3)) λ entries.
          Triple-if _ _ _ (Triple-pure tt (fewer 3)) (process_new-Within name info entries)

-- A run of process_region registers at most three times, whatever the world answers.
pub registrations-process_region :
    (host : Host) (catalog : List CatalogEntry) (name : Text) (h : History)
    → registrations (process_region host catalog name h).1 ≤ registrations h + 3
unfolding process_region Within
registrations-process_region host catalog name h =
    let final =
      ends
        (Triple-on_option (Dict.get name (regions_info catalog)) _ _
          (Triple-raise value_error (fewer host (registrations h + 3) 3))
          (λ info. process_known-Within host (registrations h + 3) name info))
        (λ u h p. p) h (omega arith) in
    omega (arith, final)
