-- ===== src/Coverage/Run.antt =====
-- scripts/run_a1_coverage.py, `main`.
use atlasmirror.Prelude.{
  Text, codes, text_eq, true, false, not, Option, none, some, List, [], ◌∷◌, ◌++◌, map, any, leb,
  if◌then◌else◌,
}
use atlasmirror.Outcome.{index_error, value_error}
use atlasmirror.Strings.{words, parse_int, remove_all}
use atlasmirror.Manifest.{Entry}
use atlasmirror.Host.{
  Host, disk_free, work_file, exists, manifest_file, read_manifest, write_summary, Io, pure,
  or_raise, assert, lift, on_option, ask, perform, ◌>>=◌, ◌>>◌,
}
use atlasmirror.Coverage.Plan.{PlanItem, henan_entry, regions_plan}
use atlasmirror.Coverage.Remote.{run_ssh, get_vps_spr, fetch_geofabrik_metadata}
use atlasmirror.Coverage.Stage.{verified_download, transfer, host_file}
use atlasmirror.Coverage.Retrieve.{retrieve, check_retrieved}
use atlasmirror.Coverage.Register.{save_progress, register_region, entry_of}
use atlasmirror.Coverage.Assertions.{retrievable_count, md5_match_count, final_assertions}

unfoldable pub fourth : List Text → Option Text
fourth (a ∷ (b ∷ (c ∷ (d ∷ ws)))) = some d
fourth _ = none

module _ (host : Host) where
  -- the check of the disk space on the VPS
  unfoldable pub preflight : Io (Unit {0})
  preflight = do
    r ← run_ssh host true disk_free
    free ← or_raise index_error (fourth (words r.stdout))
    gb ← or_raise value_error (parse_int (remove_all (codes "G") free))
    assert (leb 15 gb)

  -- the entries that an earlier run has left
  unfoldable pub resume : Io (List Entry)
  resume = do
    there ← perform host (exists manifest_file)
    if not there
        then pure (henan_entry ∷ [])
        else do found ← perform host read_manifest; on_option found (pure (henan_entry ∷ [])) pure

  -- the round of one item that is not there: the entries with the new one
  unfoldable pub cover : PlanItem → List Entry → Io (List Entry)
  cover item entries = do
    (md5, version) ← fetch_geofabrik_metadata host item.pbf_url item.md5_url
    f_size ← verified_download host (work_file item.region) item.pbf_url md5
    transfer host item.region f_size
    cid ← host_file host item.region f_size
    retrieve host 5 cid f_size false
    hashes ← check_retrieved host item.region f_size md5
    (reg, tx, block) ← register_region host item cid md5 version
    let entries' = entries ++ (entry_of item reg tx block f_size hashes ∷ [])
    save_progress host entries'
    pure entries'

  -- the loop over the plan; `existing` is `existing_regions`
  unfoldable pub cover_all : List Text → List PlanItem → List Entry → Io (List Entry)
  cover_all existing [] entries = pure entries
  cover_all existing (item ∷ items) entries = do
    entries' ← (if any (text_eq item.region) existing then pure entries else cover item entries)
    cover_all existing items entries'

  unfoldable pub run_coverage : List PlanItem → Io (List Entry)
  run_coverage plan = do
    preflight
    get_vps_spr host
    entries ← resume
    save_progress host entries
    final ← cover_all (map (λ e. e.region) entries) plan entries
    retrievable ← lift (retrievable_count final)
    matching ← lift (md5_match_count final)
    assert (final_assertions final retrievable matching)
    ask host (write_summary final)
    pure final

  pub main : Io (List Entry)
  main = run_coverage regions_plan
