-- ===== src/Region/Refines.antt =====
-- scripts/process_one_region.py: a run does to the manifest what its specification allows.
use atlasmirror.Prelude.{
  ℕ, zero, suc, ◌/◌, Text, true, false, Bool-cases, inl, inr, ◌≡◌, refl, ap, subst, ◌∙◌, Option,
  some, List, [], ◌∷◌, ◌++◌, if◌then◌else◌,
}
use atlasmirror.Outcome.{Result, ok, err, value_error, io_error}
use atlasmirror.Dict
use atlasmirror.Catalog.{CatalogEntry}
use atlasmirror.Manifest.{Entry, flag, is_counting, save_manifest}
use atlasmirror.Manifest.Save.{save_manifest-IsSaved}
use atlasmirror.Runner.{Receipt}
use atlasmirror.Host.{
  Host, Registration, History, clock_ms, read_manifest, write_manifest, perform, ask, raise, pure,
}
use atlasmirror.Host.Keeps.{
  Keeps, Keeps-perform, IsQuiet, keeps_rules, Keeps-pure, Keeps-bind, Keeps-if, Keeps-assert, ◌▸◌,
}
use atlasmirror.Host.Triples.{
  Triple, Triple-pure, Triple-raise, Triple-bind, Triple-Keeps, Triple-perform, Triple-answer,
  Triple-or_raise, Triple-from, Triple-given, Triple-on_option,
}
use atlasmirror.Host.Triples
use atlasmirror.Region.Quiet.{
  run_ssh-Keeps, fetch_published_md5-Keeps, fetch_version-Keeps, stage_file-Keeps, host_file-Keeps,
  retrieve-Keeps,
}
use atlasmirror.Region.Fetch.{Info, regions_info}
use atlasmirror.Region.Publish.{
  submit, next_timestamp, confirmed, register_region, check_retrieved, entry_of,
  save_manifest_and_docs, publish, process_new, process_known, process_region,
}
use atlasmirror.Region.Updates.{
  manifest_after, IsFaithful, has_region, Update, Processed, stays, adds, has_region-save_manifest,
  manifest-IsQuiet,
}

-- The entry of a run is counting.
counting_entry :
    (host : Host) (info : Info) (reg : Registration) (tx : Text) (block size : ℕ)
    → is_counting (entry_of host info reg tx block size) ≡ true
unfolding is_counting flag entry_of
counting_entry host info reg tx block size = refl

module _ (host : Host) (start es : List Entry) where
  -- the manifest is `es`
  Before : History → Type 0
  Before h = manifest_after start h ≡ es

  -- the manifest is what a run for the region may leave
  After : Text → History → Type 0
  After name h = Update name es (manifest_after start h)

  Before-IsQuiet : IsQuiet Before
  unfolding Before
  Before-IsQuiet = manifest-IsQuiet start (λ m. m ≡ es)

  After-IsQuiet : (name : Text) → IsQuiet (After name)
  unfolding After
  After-IsQuiet name = manifest-IsQuiet start (Update name es)

  -- the same, and the region is in it
  Listed : Text → History → Type 0
  Listed name h = After name h × (has_region name (manifest_after start h) ≡ true)

  Listed-IsQuiet : (name : Text) → IsQuiet (Listed name)
  unfolding Listed After
  Listed-IsQuiet name = manifest-IsQuiet start (λ m. Update name es m × (has_region name m ≡ true))

  Listed-After : (name : Text) (h : History) → Listed name h → After name h
  unfolding Listed
  Listed-After name h p = p.0

  After-Before : (name : Text) (h : History) → Before h → After name h
  unfolding Before After
  After-Before name h e = rw e stays

  submit-Before :
      (n : ℕ) (reg : Registration) (receipt : Receipt) → Keeps Before (submit host n reg receipt)
  unfolding submit perform Before
  submit-Before zero reg receipt = Keeps-pure receipt
  submit-Before (suc n) reg receipt =
      let q = Before-IsQuiet in
      Keeps-bind _ _ (record { at = λ h e. e })
        λ r.
          search keeps_rules
          ▸ Keeps-bind _ _ (search keeps_rules)
              λ r'. Keeps-if _ _ _ (Keeps-pure _) (search keeps_rules ▸ submit-Before n reg _)

  register_region-Triple :
      (name cid md5 url version : Text)
      → Triple Before
          (register_region host name cid md5 url version)
          (λ (reg, tx, block) h. (reg.region ≡ name) × Before h)
          (After name)
  unfolding register_region next_timestamp confirmed
  register_region-Triple name cid md5 url version =
      let q = Before-IsQuiet in
      let past = After-Before name in
      Triple-bind (Triple-Keeps (search keeps_rules) past) λ ts.
        Triple-bind (Triple-Keeps (submit-Before 3 _ _) past) λ receipt.
          Triple-bind (Triple-Keeps (search keeps_rules) past) λ x. Triple-pure _ (λ h p. (refl, p))

  save_manifest_and_docs-Triple :
      (name : Text) (e : Entry)
      → e.region ≡ name
      → is_counting e ≡ true
      → has_region name es ≡ false
      → Triple Before
          (save_manifest_and_docs host (es ++ (e ∷ [])) name)
          (λ u. Listed name)
          (After name)
  unfolding save_manifest_and_docs ask After Listed
  save_manifest_and_docs-Triple name e region counting new =
      let q = Listed-IsQuiet name in
      Triple-bind
        (Triple-Keeps (Keeps-perform host clock_ms Before-IsQuiet refl) (After-Before name))
        λ now.
          Triple-bind
            (Triple-bind
              (Triple-perform host (write_manifest (save_manifest (now / 1000) (es ++ (e ∷ []))))
                {Q = λ a. Listed name}
                (λ a h p. (
                  adds e _ region new (save_manifest-IsSaved (now / 1000) _),
                  subst
                      (λ n.
                        has_region n (save_manifest (now / 1000) (es ++ (e ∷ []))).entries ≡ true)
                      region (has_region-save_manifest (now / 1000) e es counting),
                )))
              λ a. Triple-pure tt (λ h k. k))
            λ u. Triple-Keeps (search keeps_rules) (Listed-After name)

  publish-Triple :
      (name : Text) (info : Info) (md5 version : Text) (size : ℕ) (cid : Text)
      → has_region name es ≡ false
      → Triple Before
          (publish host name info es md5 version size cid)
          (λ u. Listed name)
          (After name)
  unfolding publish check_retrieved entry_of
  publish-Triple name info md5 version size cid new =
      let q = Before-IsQuiet in
      let past = After-Before name in
      Triple-bind (Triple-Keeps (run_ssh-Keeps host q _) past) λ r.
        Triple-bind (Triple-Keeps (retrieve-Keeps host q 3 cid size) past) λ complete.
          Triple-bind (Triple-Keeps (Keeps-assert complete) past) λ u.
            Triple-bind (Triple-Keeps (search keeps_rules depth 8) past) λ u.
              Triple-bind (register_region-Triple name cid md5 info.pbf_url version)
                λ (reg, tx, block). Triple-given λ region.
                  Triple-bind
                    (save_manifest_and_docs-Triple name (entry_of host info reg tx block size)
                      region (counting_entry host info reg tx block size) new)
                    λ u.
                      let q' = Listed-IsQuiet name in
                      Triple-Keeps (search keeps_rules) (Listed-After name)

  process_new-Triple :
      (name : Text) (info : Info)
      → has_region name es ≡ false
      → Triple Before (process_new host name info es) (λ u. Listed name) (After name)
  unfolding process_new
  process_new-Triple name info new =
      let q = Before-IsQuiet in
      let past = After-Before name in
      Triple-bind (Triple-Keeps (fetch_published_md5-Keeps host q info.md5_url) past) λ md5.
        Triple-bind (Triple-Keeps (fetch_version-Keeps host q info.pbf_url) past) λ version.
          Triple-bind (Triple-Keeps (stage_file-Keeps host q _ info.pbf_url md5) past) λ size.
            Triple-bind (Triple-Keeps (host_file-Keeps host q _ _ size) past)
              λ cid. publish-Triple name info md5 version size cid new

  Listed-known :
      (name : Text) → has_region name es ≡ true → (h : History) → Before h → Listed name h
  unfolding Before Listed After
  Listed-known name known h e = rw e (stays, known)

  process_read-Triple :
      (name : Text) (info : Info)
      → Triple Before
          (if has_region name es then pure tt else process_new host name info es)
          (λ u. Listed name)
          (After name)
  process_read-Triple name info = elim (Bool-cases (has_region name es)) [
    | inl known ↦ rw known (Triple-pure tt (Listed-known name known))
    | inr new ↦ rw new (process_new-Triple name info new)
  ]

  -- What was read is the manifest.
  same_entries :
      (found : Option (List Entry)) (entries : List Entry)
      → found ≡ some es
      → found ≡ some entries
      → entries ≡ es
  same_entries found entries e f = cc

  process_known-Triple :
      IsFaithful host start
      → (name : Text) (info : Info)
      → Triple Before (process_known host name info) (λ u. Listed name) (After name)
  unfolding process_known Before
  process_known-Triple faithful name info =
      Triple-bind
        (Triple-answer host read_manifest {Q = λ found h. (found ≡ some es) × Before h}
          (λ h p. (faithful.at h ∙ ap (λ m. some m) p, p)))
        λ found.
          Triple-bind (Triple-or_raise io_error found (λ h p. After-Before name h p.1)) λ entries.
            Triple-from (λ h (read, (e, p)). (same_entries found entries e read, p))
              (Triple-given λ same. rw same (process_read-Triple name info))

processed :
    (host : Host) (name : Text) (start es : List Entry) (r : Result (Unit {0})) (h : History)
    → Triples.After (λ u. Listed host start es name) (After host start es name) (r, h)
    → Processed name es (r, manifest_after start h)
unfolding Listed After
processed host name start es (ok tt) h (u, listed) = Processed.returned _ u listed
processed host name start es (err e) h u = Processed.raised e _ u

-- In a world that reads back the manifest that was written last, a run of process_region leaves the
-- manifest as it was, or with one more entry, for the region, which the manifest did not have; whether
-- the run returns or raises. In the latter case the manifest holds, of its entries and that one, just
-- those of the closed set or with a label, each as often as it was, with their totals. If the run
-- returns, the region is in the manifest.
pub process_region-Processed :
    (host : Host) (start : List Entry) (catalog : List CatalogEntry) (name : Text) (h : History)
    → IsFaithful host start
    → Processed name (manifest_after start h) (
      (process_region host catalog name h).0,
      manifest_after start (process_region host catalog name h).1,
    )
unfolding process_region Before
process_region-Processed host start catalog name h faithful =
    let es = manifest_after start h in
    let run =
      Triple-on_option (Dict.get name (regions_info catalog)) (raise value_error)
        (process_known host name) (Triple-raise value_error (After-Before host start es name))
        (λ info. process_known-Triple host start es faithful name info) in
    let (r, h') = process_region host catalog name h in
    processed host name start es r h' (run.at h refl)
