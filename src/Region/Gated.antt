-- ===== src/Region/Gated.antt =====
-- scripts/process_one_region.py: the stages of a run and its history.
use atlasmirror.Prelude.{
  ℕ, zero, suc, ◌/◌, ◌≢◌, ◌==◌, not, arith, true, Text, text_eq, text_eq_sound, ◌≡◌, refl, none,
  some, List, [], ◌∷◌, ◌++◌,
}
use atlasmirror.Outcome.{io_error}
use atlasmirror.Hashing.{digest}
use atlasmirror.Catalog.{CatalogEntry}
use atlasmirror.Manifest.{Entry, save_manifest}
use atlasmirror.Manifest.Save.{save_manifest-IsSaved}
use atlasmirror.Runner.{Receipt, scan_receipt}
use atlasmirror.Host.{
  Host, clock_ms, Registration, Event, History, shell, register, read_bytes, read_manifest,
  write_manifest, retrieved, unlink, ask,
}
use atlasmirror.Host.Keeps.{Keeps-perform, Keeps-ask, Keeps-assert, keeps_rules}
use atlasmirror.Host.Triples.{
  Triple, Triple-from, Triple-pure, Triple-bind, Triple-Keeps, Triple-perform, Triple-or_raise,
  Triple-assert, ends,
}
use atlasmirror.Region.Quiet.{
  run_ssh-Keeps, fetch_published_md5-Keeps, fetch_version-Keeps, stage_file-Keeps, host_file-Keeps,
  retrieve-Keeps,
}
use atlasmirror.Region.Fetch.{Info}
use atlasmirror.Region.Publish.{
  submit, next_timestamp, confirmed, register_region, check_retrieved, entry_of,
  save_manifest_and_docs, publish, process_new, process_known, process_region,
}
use atlasmirror.Dict
use atlasmirror.Outcome.{value_error}
use atlasmirror.Host.Triples.{Triple-if, Triple-on_option}
use atlasmirror.Region.Fetch.{regions_info}
use atlasmirror.Host.Keeps.{Keeps-raise}
use atlasmirror.Region.Gate.{
  Past, IsScanned, WasPrepared, Gate, Gate-IsQuiet, Holds, Holds-IsQuiet, Retrieved, Registered,
  Retrieved-IsQuiet, Registered-IsQuiet,
}

module _ (host : Host) where
  WasPrepared-later :
      (es : List Entry) (d : Event) (h : History) → WasPrepared es h → WasPrepared es (d ∷ h)
  WasPrepared-later es d h (entries, e, reg, receipt, n, made, f, t, i, b, ne, r, c, m, p, s) = (
    entries,
    e,
    reg,
    receipt,
    n,
    made,
    f,
    t,
    i,
    b,
    ne,
    r,
    c,
    m,
    Past.before d h p,
    IsScanned.aside receipt d h s,
  )

  save_manifest_and_docs-Triple :
      (es : List Entry) (name : Text)
      → Triple
          (Holds host (WasPrepared es))
          (save_manifest_and_docs host es name)
          (λ u. Gate host)
          (Gate host)
  unfolding save_manifest_and_docs Holds ask
  save_manifest_and_docs-Triple es name =
      let q = Holds-IsQuiet host (WasPrepared-later es) in
      let g = Gate-IsQuiet host in
      Triple-bind (Triple-Keeps (Keeps-perform host clock_ms q refl) (λ h p. p.1)) λ now.
        Triple-bind
          (Triple-bind
            (Triple-perform host (write_manifest (save_manifest (now / 1000) es))
              {Q = λ a. Gate host}
              (λ a h (w, k). Gate.save _ a h (es, save_manifest-IsSaved (now / 1000) es, w) k))
            λ a. Triple-pure tt (λ h k. k))
          λ u. Triple-Keeps (search keeps_rules) (λ h k. k)

  module _ {C : History → Type 0} (later : (e : Event) (h : History) → C h → C (e ∷ h)) where
    check_retrieved-Triple :
        (md5 : Text)
        → Triple (Holds host C) (check_retrieved host md5) (λ u. Retrieved host C md5) (Gate host)
    unfolding check_retrieved Holds Retrieved
    check_retrieved-Triple md5 =
        Triple-bind
          (Triple-perform host (read_bytes retrieved)
            {Q = λ found. Holds host (λ h. Past (read_bytes retrieved, found) h × C h)}
            (λ a h p. ((Past.now h, later _ h p.0), Gate.quiet _ a h refl p.1)))
          λ found. Triple-bind (Triple-or_raise io_error found (λ h p. p.1)) λ bytes.
            Triple-bind (Triple-assert (text_eq (digest host.md5 bytes) md5) (λ h p. p.1.1)) λ u.
              Triple-from
                (λ h (same, (there, ((p, c), g))).
                  (((bytes, text_eq_sound _ _ same, rw there at p), c), g))
                (Triple-Keeps
                  (Keeps-ask host (unlink retrieved) (Retrieved-IsQuiet host later md5) refl)
                  (λ h p. p.1))

    gate_of : (md5 : Text) (h : History) → Retrieved host C md5 h → Gate host h
    unfolding Retrieved Holds
    gate_of md5 h p = p.1

    registered_gate :
        (reg : Registration) (receipt : Receipt) (h : History)
        → Registered host C reg receipt h
        → Gate host h
    unfolding Registered Holds
    registered_gate reg receipt h p = p.1

    holds_gate : (h : History) → Holds host C h → Gate host h
    unfolding Holds
    holds_gate h p = p.1

    submit-Triple :
        (reg : Registration) (n : ℕ) (receipt : Receipt)
        → Triple
            (Registered host C reg receipt)
            (submit host n reg receipt)
            (Registered host C reg)
            (Gate host)
    unfolding submit Registered Holds
    submit-Triple reg zero receipt = Triple-pure receipt (λ h p. p)
    submit-Triple reg (suc n) receipt =
        Triple-bind
          (Triple-perform host (shell (register reg))
            {Q = λ a. Registered host C reg (scan_receipt a.stdout receipt)}
            (λ a h ((s, (bytes, b, p), c), g). (
              (IsScanned.answered receipt a h s, (bytes, b, Past.before _ h p), later _ h c),
              Gate.registration reg a h (bytes, b, p) g,
            )))
          λ r.
            let q = Registered-IsQuiet host later reg (scan_receipt r.stdout receipt) in
            let gate = registered_gate reg (scan_receipt r.stdout receipt) in
            Triple-bind (Triple-Keeps (search keeps_rules) gate) λ u.
              Triple-bind (Triple-Keeps (search keeps_rules) gate) λ seen.
                Triple-if _ _ _ (Triple-pure _ (λ h p. p)) (
                  Triple-bind (Triple-Keeps (search keeps_rules) gate)
                    (λ u. submit-Triple reg n (scan_receipt r.stdout receipt)))

    -- Before the first attempt.
    unsent_yet :
        (reg : Registration) (h : History)
        → Retrieved host C reg.md5 h
        → Registered host C reg (record { tx_hash = none; block_num = none }) h
    unfolding Retrieved Registered Holds
    unsent_yet reg h ((w, c), g) = ((IsScanned.unsent h, w, c), g)

    not_empty : (tx : Text) → not (text_eq tx []) ≡ true → tx ≢ []
    unfolding text_eq
    not_empty [] e f = cc
    not_empty (c ∷ tx) e f = cc

    not_zero : (n : ℕ) → not (n == 0) ≡ true → n ≢ 0
    not_zero n e f = ground (arith, e, f)

    -- The assertions on the receipt.
    confirmed-Triple :
        (P : History → Type 0) (r : Receipt)
        → ((h : History) → P h → Gate host h)
        → Triple P
            (confirmed host r)
            (λ (tx, block) h.
              (r.tx_hash ≡ some tx) × (tx ≢ []) × (r.block_num ≡ some block) × (block ≢ 0) × P h)
            (Gate host)
    unfolding confirmed
    confirmed-Triple P r gate = Triple-bind (Triple-or_raise _ r.tx_hash gate) λ tx.
        Triple-bind (Triple-assert (not (text_eq tx [])) (λ h (e, p). gate h p)) λ u.
          Triple-bind (Triple-or_raise _ r.block_num (λ h (t, (e, p)). gate h p)) λ block.
            Triple-bind (Triple-assert (not (block == 0)) (λ h (f, (t, (e, p))). gate h p)) λ u.
              Triple-pure (tx, block)
                (λ h (b, (f, (t, (e, p)))). (e, not_empty tx t, f, not_zero block b, p))

    register_region-Triple :
        (name cid md5 url version : Text)
        → Triple
            (Retrieved host C md5)
            (register_region host name cid md5 url version)
            (λ (reg, tx, block) h.
              (reg.region ≡ name)
              × (reg.cid ≡ cid)
              × (reg.md5 ≡ md5)
              × (receipt : Receipt) × (receipt.tx_hash ≡ some tx)
              × (tx ≢ [])
              × (receipt.block_num ≡ some block)
              × (block ≢ 0)
              × Registered host C reg receipt h)
            (Gate host)
    unfolding register_region next_timestamp
    register_region-Triple name cid md5 url version =
        Triple-bind
          (Triple-Keeps (let q = Retrieved-IsQuiet host later md5 in search keeps_rules)
            (gate_of md5))
          λ ts.
            let reg =
              (let r : Registration = record {
                region = name;
                cid = cid;
                md5 = md5;
                url = url;
                version = version;
                timestamp = ts;
              } in
                r) in
            Triple-bind (Triple-from (unsent_yet reg) (submit-Triple reg 3 _)) λ receipt.
              Triple-bind
                (confirmed-Triple (Registered host C reg receipt) receipt
                  (registered_gate reg receipt))
                λ x. Triple-pure _ (λ h (f, t, g, b, p). (refl, refl, refl, receipt, f, t, g, b, p))

    saved :
        (info : Info) (entries : List Entry) (reg : Registration) (tx : Text) (block size : ℕ)
        (name cid md5 : Text) (h : History)
        → ((h : History) → C h → Past (read_manifest, some entries) h)
        → (reg.region ≡ name)
          × (reg.cid ≡ cid)
          × (reg.md5 ≡ md5)
          × (receipt : Receipt) × (receipt.tx_hash ≡ some tx)
          × (tx ≢ [])
          × (receipt.block_num ≡ some block)
          × (block ≢ 0)
          × Registered host C reg receipt h
        → Holds host (WasPrepared (entries ++ (entry_of host info reg tx block size ∷ []))) h
    unfolding Registered Holds entry_of
    saved info entries reg tx block size name cid md5 h known
          (n, c, m, receipt, f, t, i, b, ((scanned, w, past), g)) =
        (
          (
            entries,
            _,
            reg,
            receipt,
            block,
            refl,
            f,
            t,
            i,
            refl,
            b,
            refl,
            refl,
            refl,
            known h past,
            scanned,
          ),
          g,
        )

    publish-Triple :
        (name : Text) (info : Info) (entries : List Entry) (md5 version : Text) (size : ℕ)
        (cid : Text)
        → ((h : History) → C h → Past (read_manifest, some entries) h)
        → Triple
            (Holds host C)
            (publish host name info entries md5 version size cid)
            (λ u. Gate host)
            (Gate host)
    unfolding publish
    publish-Triple name info entries md5 version size cid known =
        Triple-bind
          (Triple-Keeps (let q = Holds-IsQuiet host later in run_ssh-Keeps host q _) holds_gate)
          λ r.
            Triple-bind
              (Triple-Keeps (let q = Holds-IsQuiet host later in retrieve-Keeps host q 3 cid size)
                holds_gate)
              λ ok.
                Triple-bind (Triple-from (λ h p. p) (Triple-Keeps (Keeps-assert ok) holds_gate))
                  λ u. Triple-bind (check_retrieved-Triple md5) λ u.
                    Triple-bind (register_region-Triple name cid md5 info.pbf_url version)
                      λ (reg, tx, block).
                        Triple-bind
                          (Triple-from
                            (λ h p. saved info entries reg tx block size name cid md5 h known p)
                            (save_manifest_and_docs-Triple _ name))
                          λ u.
                            Triple-Keeps (let q = Gate-IsQuiet host in search keeps_rules)
                              (λ h g. g)

  process_new-Triple :
      (name : Text) (info : Info) (entries : List Entry)
      → Triple
          (Holds host (Past (read_manifest, some entries)))
          (process_new host name info entries)
          (λ u. Gate host)
          (Gate host)
  unfolding process_new
  process_new-Triple name info entries =
      let later : (e : Event) (h : History)
          → Past (read_manifest, some entries) h
          → Past (read_manifest, some entries) (e ∷ h) =
        (λ e h p. Past.before e h p) in
      let q = Holds-IsQuiet host later in
      Triple-bind (Triple-Keeps (fetch_published_md5-Keeps host q info.md5_url) (holds_gate later))
        λ md5.
          Triple-bind (Triple-Keeps (fetch_version-Keeps host q info.pbf_url) (holds_gate later))
            λ version.
              Triple-bind
                (Triple-Keeps (stage_file-Keeps host q _ info.pbf_url md5) (holds_gate later))
                λ size.
                  Triple-bind (Triple-Keeps (host_file-Keeps host q _ _ size) (holds_gate later))
                    λ cid. publish-Triple later name info entries md5 version size cid (λ h p. p)

  process_known-Triple :
      (name : Text) (info : Info)
      → Triple (Gate host) (process_known host name info) (λ u. Gate host) (Gate host)
  unfolding process_known Holds
  process_known-Triple name info =
      Triple-bind
        (Triple-perform host read_manifest {Q = λ found. Holds host (Past (read_manifest, found))}
          (λ a h g. (Past.now h, Gate.quiet _ a h refl g)))
        λ found. Triple-bind (Triple-or_raise io_error found (λ h p. p.1)) λ entries.
          Triple-if _ _ _ (Triple-pure tt (λ h p. p.1.1))
            (Triple-from (λ h p. (rw p.0 at p.1.0, p.1.1)) (process_new-Triple name info entries))

  -- A run of process_region on a history in which each registration comes after a read of the
  -- retrieved file whose bytes have the MD5 that is registered, and each manifest written is sound,
  -- leaves such a history, whatever the world answers and whether the run returns or raises. A manifest
  -- is sound if it holds, of the entries that were read and one more, just those of the closed set or
  -- with a label, each as often as it was, with their totals; the one more has the region, CID and MD5
  -- of a registration, and the transaction's hash and the block's number that a scan of
  -- answers to that registration shows, which are not empty.
  pub process_region-Gate :
      (catalog : List CatalogEntry) (name : Text) (h : History)
      → Gate host h
      → Gate host (process_region host catalog name h).1
  unfolding process_region
  process_region-Gate catalog name =
      ends
        (Triple-on_option (Dict.get name (regions_info catalog)) _ _
          (Triple-Keeps (Keeps-raise value_error) (λ h g. g))
          (λ info. process_known-Triple name info))
        (λ u h g. g)
