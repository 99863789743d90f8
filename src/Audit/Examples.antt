-- ===== src/Audit/Examples.antt =====
-- Audits of a small catalog, and the properties at these inputs.
use atlasmirror.Prelude.{
  ℕ, zero, suc, ◌%◌, ◌==◌, if◌then◌else◌, ◌+◌, ◌-◌, sub_ℕ, ◌≡◌, ◌≤◌, refl, arith, Text, codes,
  text_eq, lower, true, Option, none, some, List, [], ◌∷◌, ◌++◌, length, All, map,
}
use atlasmirror.Dict
use atlasmirror.Hashing.{Hashlib, file_md5, md5_loop, chunk_size}
use atlasmirror.Manifest.{Entry, count_countries, is_counting, opt_text_eq, flag}
use atlasmirror.Manifest.Texts.{add, contains}
use atlasmirror.Catalog.{CatalogEntry}
use atlasmirror.Onchain.{country, Record, Records}
use atlasmirror.Audit.{
  audit, audit_loop, audit_entry, compare_entry, byte_proof, retrieved, local_candidate, candidates,
  clean, last_part, hier_match, storage_byte_pass, level_text, or_empty, summarise,
  counting_entries, fail,
}
use atlasmirror.Audit.Counts.{verified, total_verified_entries_lem}
use atlasmirror.Audit.Verdict.{IsVerified, catalog_map, audit_pass, audit_fails_quietly}

abbrev plain : Hashlib
plain = record { State = List ℕ; new = []; update = λ s b. s ++ b; hexdigest = λ s. s }

abbrev no_file : Text → Option (List ℕ)
no_file path = none

-- The region with this number, of one of 15 countries.
abbrev sample_entry : ℕ → Entry
sample_entry n = record {
  region = n ∷ [];
  parent = none;
  level = codes "Country";
  country = (n % 15) ∷ [];
  source_url = [];
  version = [];
  size = 4;
  geofabrik_md5 = (100 + n) ∷ [];
  cid = (200 + n) ∷ [];
  registry_tx = [];
  block = some 7;
  timestamp = 9;
  in_closed_set = some true;
  status = some (codes "A1_VERIFIED");
  external_retrieval = some (record {
    status = some (codes "VERIFIED_EXACT_MATCH");
    retrieved_size = 4;
    retrieved_md5 = some ((100 + n) ∷ []);
  });
}

-- Of the region 0 the working tree has the file, and the manifest no retrieval.
abbrev held_entry : ℕ → Entry
held_entry n = record (sample_entry n) {
  size = 1;
  external_retrieval = if n == 0 then none else (sample_entry n).external_retrieval;
}

abbrev on_disk : Text → Option (List ℕ)
on_disk path =
    if text_eq path (codes "test_data/a1_work/" ++ ((0 ∷ []) ++ codes "-latest.osm.pbf"))
    then some (100 ∷ [])
    else none

abbrev sample_catalog : ℕ → CatalogEntry
sample_catalog n = record {
  path = n ∷ [];
  name = n ∷ [];
  parent = none;
  level = codes "Country";
  geofabrik_url = [];
  md5_url = [];
}

abbrev sample_record : ℕ → Record
sample_record n = record {
  region = n ∷ [];
  parent = none;
  level = country;
  cid = (200 + n) ∷ [];
  source_url = [];
  checksum = (100 + n) ∷ [];
  version = [];
  hosted = true;
  timestamp = 9;
}

abbrev below : {A : Type 0} → (ℕ → A) → ℕ → List A
below f zero = []
below f (suc n) = f n ∷ below f n

abbrev chain : ℕ → Records
chain n = map (λ r. (r.region, r)) (below sample_record n)

audit_pass_example :
    (length (counting_entries (below held_entry 25)) ≡ 25)
    × (15 ≤ count_countries (counting_entries (below held_entry 25)))
    × All
        (IsVerified plain on_disk (catalog_map (below sample_catalog 25)) (chain 25))
        (counting_entries (below held_entry 25))
unfolding audit audit_loop audit_entry compare_entry byte_proof retrieved local_candidate candidates
    clean last_part hier_match storage_byte_pass level_text or_empty summarise counting_entries
    is_counting flag opt_text_eq add contains codes text_eq lower Dict.get Dict.index_by Dict.put
    file_md5 md5_loop chunk_size
audit_pass_example =
    audit_pass plain on_disk (below sample_catalog 25) (below held_entry 25) (chain 25) refl

-- Two verified entries and no mismatch: the run ends with status 0, and yet the audit fails.
audit_fails_quietly_example :
    let a = audit plain no_file (below sample_catalog 2) (below sample_entry 2) (chain 2) in
    (a.summary.audit_result ≡ fail) × (a.exit_code ≡ 0)
unfolding audit audit_loop audit_entry compare_entry byte_proof retrieved local_candidate candidates
    clean last_part hier_match storage_byte_pass level_text or_empty summarise counting_entries
    is_counting flag opt_text_eq add contains codes text_eq lower Dict.get Dict.index_by Dict.put
audit_fails_quietly_example =
    audit_fails_quietly plain no_file (below sample_catalog 2) (below sample_entry 2) (chain 2)
      (omega arith) refl

-- One of the three entries is not on the chain, and one too few is reported.
total_verified_entries_lem_example :
    let a = audit plain no_file (below sample_catalog 3) (below sample_entry 3) (chain 2) in
    let absent = length (counting_entries (below sample_entry 3)) - length a.records in
    a.summary.total_verified_entries ≡ sub_ℕ (verified a.records) absent
total_verified_entries_lem_example =
    total_verified_entries_lem plain no_file (below sample_catalog 3) (below sample_entry 3)
      (chain 2)
