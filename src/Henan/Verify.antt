-- ===== src/Henan/Verify.antt =====
-- scripts/verify_henan_e2e.py: steps 6.5 to 9 and `main`.
use atlasmirror.Prelude.{Text, codes, Option, none, some, List, [], ◌∷◌, if◌then◌else◌}
use atlasmirror.Strings.{strip, splitlines, includes, after}
use atlasmirror.Hashing.{Hashes}
use atlasmirror.Host.{
  Host, Registration, wrap_elf, deploy_program, register, query, write_log, register_log, query_log,
  summary_log, clock_ms, Io, pure, assert, ask, ◌>>=◌, ◌>>◌,
}
use atlasmirror.Steps.{run_local}
use atlasmirror.Henan.Upload.{
  pbf_url, fetch_published, fetch_pbf, check_pbf, start_storage, upload_file,
}
use atlasmirror.Henan.Download.{download_file, check_copy, stop_storage}

-- `tx_hash` and `block_num`
pub record Receipt : Type 0 where
  pub tx_hash : Option Text
  pub block_num : Option Text

stripped : Option Text → Option Text
stripped none = none
stripped (some t) = some (strip t)

-- One round of the loop over the lines.
scan_line : Text → Receipt → Receipt
scan_line line r = record {
  tx_hash =
      if includes (codes "Transaction submitted! Hash:") line
      then stripped (after (codes "Hash:") line)
      else r.tx_hash;
  block_num =
      if includes (codes "Transaction is included in block") line
      then stripped (after (codes "block") line)
      else r.block_num;
}

scan_lines : List Text → Receipt → Receipt
scan_lines [] r = r
scan_lines (line ∷ lines) r = scan_lines lines (scan_line line r)

pub scan_receipt : Text → Receipt
scan_receipt stdout = scan_lines (splitlines stdout) (record { tx_hash = none; block_num = none })

abbrev pub registration : Text → Hashes → Registration
registration cid file = record {
  region = codes "china/henan";
  cid = cid;
  md5 = file.md5;
  url = pbf_url;
  version = codes "2026-09-20";
  timestamp = 1789905600;
}

module _ (host : Host) where
  unfoldable pub deploy : Io (Unit {0})
  deploy = do run_local host wrap_elf; run_local host deploy_program; pure tt

  -- step 7
  unfoldable pub register_henan : Text → Hashes → Io Receipt
  register_henan cid file = do
    r ← run_local host (register (registration cid file))
    let receipt = scan_receipt r.stdout
    ask host clock_ms
    ask host (write_log (register_log (registration cid file) receipt.tx_hash receipt.block_num))
    pure receipt

  -- step 8
  unfoldable pub query_registry : Text → Hashes → Io (Unit {0})
  query_registry cid file = do
    q ← run_local host query
    assert (includes cid q.stdout)
    assert (includes file.md5 q.stdout)
    ask host (write_log (query_log q.stdout))

  -- step 9
  unfoldable pub write_summary : Text → Hashes → Receipt → Io (Unit {0})
  write_summary cid file receipt = do
    ask host clock_ms
    ask host (write_log (summary_log file cid receipt.tx_hash receipt.block_num))

  -- from the CID on
  unfoldable pub publish : Text → Hashes → Io (Unit {0})
  publish cid file = do
    download_file host cid
    check_copy host cid file
    stop_storage host
    deploy
    receipt ← register_henan cid file
    query_registry cid file
    write_summary cid file receipt

  unfoldable pub verify_henan : Io (Unit {0})
  verify_henan = do
    published ← fetch_published host
    fetch_pbf host
    file ← check_pbf host published
    start_storage host
    cid ← upload_file host file
    publish cid file
