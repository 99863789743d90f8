-- ===== src/Coverage/Register.antt =====
-- scripts/run_a1_coverage.py, step 5, `save_progress` and the final assertions.
use atlasmirror.Prelude.{
  ℕ, zero, suc, Text, codes, text_eq, not, ◌&&◌, Option, none, some, List, [], ◌∷◌, length, leb,
  ◌==◌, if◌then◌else◌,
}
use atlasmirror.Outcome.{Error}
use atlasmirror.Strings.{includes}
use atlasmirror.Hashing.{Hashes}
use atlasmirror.Manifest.{Entry, count_countries}
use atlasmirror.Runner.{Receipt, scan_receipt}
use atlasmirror.Host.{
  Host, Registration, shell, query, register, git_add, git_commit, sleep_ms, clock_ms,
  write_coverage, CoverageFile, write_adoption, Io, pure, or_raise, assert, ask, perform, ◌>>=◌,
  ◌>>◌,
}
use atlasmirror.Region.{next_timestamp}
use atlasmirror.Coverage.Plan.{PlanItem, exact_match}

-- What `save_progress` writes as the manifest.
pub coverage_file : List Entry → CoverageFile
coverage_file es = record {
  total_verified_entries = length es;
  represented_countries = count_countries es;
  is_verified = leb 25 (length es);
  entries = es;
}

unfoldable pub last_entry : List Entry → Option Entry
last_entry [] = none
last_entry (e ∷ []) = some e
last_entry (d ∷ (e ∷ es)) = last_entry (e ∷ es)

module _ (host : Host) where
  -- With no entry, the index -1 raises in the commit's `try`.
  unfoldable pub commit_progress : ℕ → Option Entry → Io (Unit {0})
  commit_progress n none = pure tt
  commit_progress n (some e) = ask host (shell (git_commit n e.region))

  unfoldable pub save_progress : List Entry → Io (Unit {0})
  save_progress es = do
    ask host clock_ms
    ask host (write_coverage (coverage_file es))
    ask host (
        write_adoption (record {
          counting = es;
          extra = [];
          countries = count_countries es;
          is_complete = leb 25 (length es) && leb 15 (count_countries es);
        }))
    ask host (shell git_add)
    commit_progress (length es) (last_entry es)

  -- the loop over `range(1, 4)`: the receipt, and the output of the last query
  unfoldable pub submit : ℕ → Registration → Receipt → Text → Io (Receipt × Text)
  submit zero reg receipt seen = pure (receipt, seen)
  submit (suc n) reg receipt seen = do
    r ← perform host (shell (register reg))
    let receipt' = scan_receipt r.stdout receipt
    ask host (sleep_ms 3000)
    q ← perform host (shell query)
    if includes reg.cid q.stdout && includes reg.md5 q.stdout
        then pure (receipt', q.stdout)
        else do ask host (sleep_ms 15000); submit n reg receipt' q.stdout

  -- the four assertions
  unfoldable pub confirmed : Registration → Receipt → Text → Io (Text × ℕ)
  confirmed reg receipt seen = do
    tx ← or_raise Error.assertion_error receipt.tx_hash
    assert (not (text_eq tx []) && not (text_eq tx (codes "ON_CHAIN_PRE_VERIFIED")))
    block ← or_raise Error.assertion_error receipt.block_num
    assert (not (block == 0))
    assert (includes reg.cid seen)
    assert (includes reg.md5 seen)
    pure (tx, block)

  unfoldable pub register_region : PlanItem → Text → Text → Text → Io (Registration × Text × ℕ)
  register_region item cid md5 version = do
    ts ← next_timestamp host
    let reg =
        (let r : Registration = record {
          region = item.region;
          cid = cid;
          md5 = md5;
          url = item.pbf_url;
          version = version;
          timestamp = ts;
        } in
          r)
    (receipt, seen) ← submit 3 reg (record { tx_hash = none; block_num = none }) []
    (tx, block) ← confirmed reg receipt seen
    pure (reg, tx, block)

unfoldable pub entry_of : PlanItem → Registration → Text → ℕ → ℕ → Hashes → Entry
entry_of item reg tx block f_size hashes = record {
  region = item.region;
  parent = item.parent;
  level = item.level;
  country = item.country;
  source_url = item.pbf_url;
  version = reg.version;
  size = f_size;
  geofabrik_md5 = reg.md5;
  cid = reg.cid;
  registry_tx = tx;
  block = some block;
  timestamp = reg.timestamp;
  in_closed_set = none;
  status = none;
  external_retrieval = some (exact_match hashes.size hashes.md5);
}
