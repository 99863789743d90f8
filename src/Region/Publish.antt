-- ===== src/Region/Publish.antt =====
-- scripts/process_one_region.py: the registration, the manifest and `process_region`.
use atlasmirror.Prelude.{
  ℕ, zero, suc, ◌+◌, ◌/◌, max, Text, codes, text_eq, true, not, ◌&&◌, none, some, List, [], ◌∷◌,
  ◌++◌, length, keep, any, leb, ◌==◌, if◌then◌else◌,
}
use atlasmirror.Outcome.{Error, value_error, io_error}
use atlasmirror.Strings.{includes}
use atlasmirror.Dict
use atlasmirror.Dict.{Dict}
use atlasmirror.Catalog.{CatalogEntry}
use atlasmirror.Hashing.{digest}
use atlasmirror.Manifest.{Entry, is_counting, is_extra, count_countries, save_manifest}
use atlasmirror.Runner.{Receipt, registry_view, scan_receipt}
use atlasmirror.Host.{
  Host, Registration, shell, query, register, git_add, git_commit, remove, restart, ssh, retrieved,
  sleep_ms, read_bytes, unlink, clock_ms, read_manifest, write_manifest, write_adoption, Io, pure,
  raise, on_option, or_raise, assert, ask, perform, ◌>>=◌, ◌>>◌,
}
use atlasmirror.Region.Fetch.{
  Info, regions_info, staging_file, staging_filename, run_ssh, fetch_published_md5, fetch_version,
  stage_file, host_file,
}
use atlasmirror.Region.Retrieve.{retrieve}

last_region : List Entry → Text → Text
last_region [] label = label
last_region (e ∷ es) label = last_region es e.region

-- new_region_name or (counting_entries[-1]['region'] if counting_entries else 'batch')
pub commit_label : Text → List Entry → Text
commit_label [] counting = last_region counting (codes "batch")
commit_label (c ∷ s) counting = c ∷ s

module _ (host : Host) where
  -- The clock gives the "timestamp" of the file.
  unfoldable pub save_manifest_and_docs : List Entry → Text → Io (Unit {0})
  save_manifest_and_docs es name = do
    let counting = keep is_counting es
    let countries = count_countries counting
    now ← perform host clock_ms
    ask host (write_manifest (save_manifest (now / 1000) es))
    ask host (
        write_adoption (record {
          counting = counting;
          extra = keep is_extra es;
          countries = countries;
          is_complete = leb 25 (length counting) && leb 15 countries;
        }))
    ask host (shell git_add)
    ask host (shell (git_commit (length counting) (commit_label name counting)))

  -- the loop over `range(1, 4)`
  unfoldable pub submit : ℕ → Registration → Receipt → Io Receipt
  submit zero reg receipt = pure receipt
  submit (suc n) reg receipt = do
    r ← perform host (shell (register reg))
    let receipt' = scan_receipt r.stdout receipt
    ask host (sleep_ms 3000)
    q ← perform host (shell query)
    if includes reg.cid q.stdout && includes reg.md5 q.stdout
        then pure receipt'
        else do ask host (sleep_ms 10000); submit n reg receipt'

  -- max(now_ts, onchain_last_ts + 60)
  unfoldable pub next_timestamp : Io ℕ
  next_timestamp = do
    q ← perform host (shell query)
    now ← perform host clock_ms
    pure (max (now / 1000) ((registry_view q.stdout).last_updated + 60))

  -- assert tx_hash and block_num
  unfoldable pub confirmed : Receipt → Io (Text × ℕ)
  confirmed r = do
    tx ← or_raise Error.assertion_error r.tx_hash
    assert (not (text_eq tx []))
    block ← or_raise Error.assertion_error r.block_num
    assert (not (block == 0))
    pure (tx, block)

  -- step 5 up to the assertion
  unfoldable pub register_region : Text → Text → Text → Text → Text → Io (Registration × Text × ℕ)
  register_region name cid md5 url version = do
    ts ← next_timestamp
    let reg =
        (let r : Registration = record {
          region = name;
          cid = cid;
          md5 = md5;
          url = url;
          version = version;
          timestamp = ts;
        } in
          r)
    receipt ← submit 3 reg (record { tx_hash = none; block_num = none })
    (tx, block) ← confirmed receipt
    pure (reg, tx, block)

  -- The retrieved bytes have the published MD5.
  unfoldable pub check_retrieved : Text → Io (Unit {0})
  check_retrieved md5 = do
    found ← perform host (read_bytes retrieved)
    bytes ← or_raise io_error found
    assert (text_eq (digest host.md5 bytes) md5)
    ask host (unlink retrieved)

  unfoldable pub entry_of : Info → Registration → Text → ℕ → ℕ → Entry
  entry_of info reg tx block size = record {
    region = reg.region;
    parent = info.parent;
    level = info.level;
    country = info.country;
    source_url = info.pbf_url;
    version = reg.version;
    size = size;
    geofabrik_md5 = reg.md5;
    cid = reg.cid;
    registry_tx = tx;
    block = some block;
    timestamp = reg.timestamp;
    in_closed_set = some true;
    status = some (codes "A1_VERIFIED");
    external_retrieval = some (record {
      status = some (codes "VERIFIED_EXACT_MATCH");
      retrieved_size = size;
      retrieved_md5 = some reg.md5;
    });
  }

  -- from the CID on: the restart, the retrieval, its check, the registration and the records
  unfoldable pub publish : Text → Info → List Entry → Text → Text → ℕ → Text → Io (Unit {0})
  publish name info entries md5 version size cid = do
    run_ssh host (restart 4)
    complete ← retrieve host 3 cid size
    assert complete
    check_retrieved md5
    (reg, tx, block) ← register_region name cid md5 info.pbf_url version
    save_manifest_and_docs (entries ++ (entry_of info reg tx block size ∷ [])) name
    ask host (ssh (remove (staging_file name)))

  unfoldable pub process_new : Text → Info → List Entry → Io (Unit {0})
  process_new name info entries = do
    md5 ← fetch_published_md5 host info.md5_url
    version ← fetch_version host info.pbf_url
    size ← stage_file host (staging_file name) info.pbf_url md5
    cid ← host_file host (staging_file name) (staging_filename name) size
    publish name info entries md5 version size cid

  unfoldable pub process_known : Text → Info → Io (Unit {0})
  process_known name info = do
    found ← perform host read_manifest
    entries ← or_raise io_error found
    if any (λ e. text_eq e.region name) entries then pure tt else process_new name info entries

  unfoldable pub process_region : List CatalogEntry → Text → Io (Unit {0})
  process_region catalog name =
      on_option (Dict.get name (regions_info catalog)) (raise value_error) (process_known name)
