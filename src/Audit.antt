-- ===== src/Audit.antt =====
-- scripts/verify_a1_audit.py, `main`: the audit of the counting entries against the catalog, the
-- registry and the bytes at hand. `file` is what the repository's working tree holds under a path,
-- and `M` and `S` are the two hashes of `hashlib`.
pub mod Verdict
pub mod Counts
mod Examples
use atlasmirror.Prelude.{
  ℕ, suc, ◌+◌, Text, Bool, true, false, not, ◌&&◌, ◌||◌, codes, text_eq, lower, leb, ◌==◌,
  if◌then◌else◌,
}
use atlasmirror.Prelude.{Option, none, some, List, [], ◌∷◌, ◌++◌, length, take, keep, all}
use atlasmirror.Prelude.{ℤ, sub_ℕ}
use atlasmirror.Dict
use atlasmirror.Dict.{Dict}
use atlasmirror.Hashing.{Hashlib, file_md5}
use atlasmirror.Manifest.{Entry, Retrieval, opt_text_eq, is_counting}
use atlasmirror.Manifest.Texts.{add}
use atlasmirror.Catalog.{CatalogEntry}
use atlasmirror.Onchain.{Level, country, subregion, Record, Records}

pub data Provenance : Type 0 where
  local_storage_cache : Text → Provenance
  independent_peer_retrieval missing : Provenance

-- `computed_byte_md5` and where it is from; "MISSING_RETRIEVAL" stands for no digest
pub record ByteProof : Type 0 where
  pub md5 : Text
  pub provenance : Provenance
  pub byte_match : Bool

pub record AuditRecord : Type 0 where
  pub index : ℕ
  pub entry : Entry
  pub catalog : CatalogEntry
  pub onchain : Record
  pub bytes : ByteProof
  pub storage_byte_match : Bool
  pub is_verified : Bool

pub data Mismatch : Type 0 where
  not_in_catalog missing_onchain : Text → Mismatch
  mismatch : Text → Bool → Bool → Bool → Bool → Mismatch

-- The three variables of the loop.
pub record Progress : Type 0 where
  pub audit_records : List AuditRecord
  pub mismatches : List Mismatch
  pub unique_countries : List Text

unfoldable pub level_text : Level → Text
level_text country = codes "country"
level_text subregion = codes "subregion"

-- x or ""
unfoldable pub or_empty : Option Text → Text
or_empty none = []
or_empty (some s) = s

-- a == b of two values that may be None
unfoldable pub opt_eq : Option Text → Option Text → Bool
opt_eq none none = true
opt_eq (some s) (some t) = text_eq s t
opt_eq _ _ = false

-- region.replace('/', '_')
clean : Text → Text
clean [] = []
clean (c ∷ s) = (if c == b'/' then b'_' else c) ∷ clean s

-- region.split('/')[-1]
last_part : Text → Text → Text
last_part [] part = part
last_part (c ∷ s) part = last_part s (if c == b'/' then [] else part ++ (c ∷ []))

candidates : Text → List Text
unfolding clean last_part
candidates region =
    let suffix = codes "-latest.osm.pbf" in
    (codes "test_data/a1_work/" ++ (clean region ++ suffix))
    ∷ (codes "test_data/" ++ (last_part region [] ++ suffix))
    ∷ (codes "test_data/" ++ (clean region ++ suffix))
    ∷ []

module _ (M : Hashlib) (file : Text → Option (List ℕ)) where
  -- The first candidate that exists with the size of the manifest, and its bytes.
  local_candidate : ℕ → List Text → Option (Text × List ℕ)
  local_candidate size [] = none
  local_candidate size (path ∷ paths) = elim (file path) [
    | none ↦ local_candidate size paths
    | some bytes ↦ if length bytes == size then some (path, bytes) else local_candidate size paths
  ]

  -- The `else` branch: the retrieval that the manifest records.
  retrieved : Entry → Option Retrieval → ByteProof
  retrieved e none = record {
    md5 = codes "MISSING_RETRIEVAL";
    provenance = missing;
    byte_match = false;
  }
  retrieved e (some r) =
      let known = or_empty r.retrieved_md5 in
      if text_eq known [] || not (opt_text_eq r.status (codes "VERIFIED_EXACT_MATCH"))
      then record { md5 = codes "MISSING_RETRIEVAL"; provenance = missing; byte_match = false }
      else record {
        md5 = known;
        provenance = independent_peer_retrieval;
        byte_match = text_eq known e.geofabrik_md5;
      }

  byte_proof : Entry → ByteProof
  byte_proof e = elim (local_candidate e.size (candidates e.region)) [
    | none ↦ retrieved e e.external_retrieval
    | some (path, bytes) ↦ record {
      md5 = file_md5 M bytes;
      provenance = local_storage_cache path;
      byte_match = text_eq (file_md5 M bytes) e.geofabrik_md5;
    }
  ]

  abbrev cid_match : Entry → Record → Bool
  cid_match e o = text_eq o.cid e.cid

  abbrev md5_match : Entry → Record → Bool
  md5_match e o = text_eq o.checksum e.geofabrik_md5

  hier_match : CatalogEntry → Record → Bool
  hier_match c o =
      text_eq (lower (level_text o.level)) (lower c.level)
      && text_eq (or_empty o.parent) (or_empty c.parent)

  storage_byte_pass : Entry → Record → Bool
  storage_byte_pass e o = let p = byte_proof e in p.byte_match && text_eq p.md5 o.checksum

  -- The rest of a round, once the entry is found in the catalog and on the chain.
  compare_entry : ℕ → Entry → CatalogEntry → Record → Progress → Progress
  compare_entry idx e c o p =
      let good = cid_match e o && md5_match e o && hier_match c o && storage_byte_pass e o in
      record p {
        audit_records =
            p.audit_records
            ++ (record {
              index = idx;
              entry = e;
              catalog = c;
              onchain = o;
              bytes = byte_proof e;
              storage_byte_match = storage_byte_pass e o;
              is_verified = good;
            }
                ∷ []);
        mismatches =
            if good
            then p.mismatches
            else p.mismatches
              ++ (mismatch e.region (cid_match e o) (md5_match e o) (hier_match c o)
                    (storage_byte_pass e o)
                  ∷ []);
      }

  module _ (catalog_map : Dict CatalogEntry) (onchain_records : Records) where
    -- One round of `for idx, entry in enumerate(manifest_entries, start=1)`.
    audit_entry : ℕ → Entry → Progress → Progress
    audit_entry idx e p =
        let seen = record p { unique_countries = add e.country p.unique_countries } in
        elim (Dict.get e.region catalog_map) [
          | none ↦ record seen { mismatches = p.mismatches ++ (not_in_catalog e.region ∷ []) }
          | some c ↦ elim (Dict.get e.region onchain_records) [
            | none ↦ record seen { mismatches = p.mismatches ++ (missing_onchain e.region ∷ []) }
            | some o ↦ compare_entry idx e c o seen
          ]
        ]

    pub audit_loop : ℕ → List Entry → Progress → Progress
    audit_loop idx [] p = p
    audit_loop idx (e ∷ es) p = audit_loop (idx + 1) es (audit_entry idx e p)

pub data AuditResult : Type 0 where
  pass fail : AuditResult

pub record AuditSummary : Type 0 where
  pub total_verified_entries : ℤ
  pub represented_countries : ℕ
  pub all_cids_match_onchain : Bool
  pub all_checksums_match_onchain : Bool
  pub all_hierarchies_valid : Bool
  pub mismatches_count : ℕ
  pub audit_result : AuditResult

-- "summary" of the payload. Lengths are subtracted as Python's `int`, below zero too.
summarise : Progress → AuditSummary
summarise p = record {
  total_verified_entries = sub_ℕ (length p.audit_records) (length p.mismatches);
  represented_countries = length p.unique_countries;
  all_cids_match_onchain = all (λ r. text_eq r.entry.cid r.onchain.cid) p.audit_records;
  all_checksums_match_onchain =
      all (λ r. text_eq r.entry.geofabrik_md5 r.onchain.checksum) p.audit_records;
  all_hierarchies_valid =
      all
        (λ r.
          text_eq r.catalog.level (level_text r.onchain.level)
          && opt_eq r.catalog.parent r.onchain.parent)
        p.audit_records;
  mismatches_count = length p.mismatches;
  audit_result =
      if length p.mismatches == 0
        && length p.audit_records == 25
        && leb 15 (length p.unique_countries)
      then pass
      else fail;
}

-- What `main` writes and the exit status that it ends with.
pub record Audit : Type 0 where
  pub summary : AuditSummary
  pub records : List AuditRecord
  pub exit_code : ℕ

abbrev pub start : Progress
start = record { audit_records = []; mismatches = []; unique_countries = [] }

-- [e for e in manifest["entries"] if …][:25]
pub counting_entries : List Entry → List Entry
counting_entries es = take 25 (keep is_counting es)

pub audit : Hashlib → (Text → Option (List ℕ)) → List CatalogEntry → List Entry → Records → Audit
audit M file catalog entries onchain_records =
    let p =
      audit_loop M file (Dict.index_by (λ c. c.path) catalog []) onchain_records 1
        (counting_entries entries) start in
    record {
      summary = summarise p;
      records = p.audit_records;
      exit_code = if length p.mismatches == 0 then 0 else 1;
    }
