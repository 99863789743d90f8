-- ===== src/Compare/Examples.antt =====
-- A registry of two records against a small catalog, and the properties at these inputs.
use atlasmirror.Prelude.{Text, ◌≡◌, refl, codes, text_eq, true, none, some, [], ◌∷◌, All}
use atlasmirror.Dict
use atlasmirror.Catalog.{CatalogEntry}
use atlasmirror.Onchain.{subregion, Record, Snapshot, fetch_onchain_records}
use atlasmirror.Audit.{level_text, opt_eq}
use atlasmirror.Manifest.{Entry, flag}
use atlasmirror.Outcome.{ok}
use atlasmirror.Onchain.Borsh.{encode_state}
use atlasmirror.Onchain.Examples.{registry, registry-IsState}
use atlasmirror.Compare.Agreement.{IsDistinct, read_registry-fetch_onchain_records}
use atlasmirror.Compare.Decoding.{read_registry-encode_state}
use atlasmirror.Compare.{
  read_registry, find_record, exp_level, exp_parent, exp_cid, exp_md5, match_hier, match_text,
  compare_round, compare_audit, in_closed_set, counting_25, manifest_map,
}
use atlasmirror.Compare.Clean.{IsConsistent, compare_audit-IsConsistent}

abbrev henan_record : Record
henan_record = record {
  region = codes "h";
  parent = some (codes "c");
  level = subregion;
  cid = codes "z";
  source_url = [];
  checksum = codes "5";
  version = [];
  hosted = true;
  timestamp = 9;
}

abbrev henan_catalog : CatalogEntry
henan_catalog = record {
  path = codes "h";
  name = [];
  parent = some (codes "c");
  level = codes "subregion";
  geofabrik_url = [];
  md5_url = [];
}

abbrev henan_entry : Entry
henan_entry = record {
  region = codes "h";
  parent = some (codes "c");
  level = codes "Subregion";
  country = codes "C";
  source_url = [];
  version = [];
  size = 4;
  geofabrik_md5 = codes "5";
  cid = codes "z";
  registry_tx = [];
  block = some 7;
  timestamp = 9;
  in_closed_set = some true;
  status = none;
  external_retrieval = none;
}

compare_audit-IsConsistent_example :
    All
      (IsConsistent
        (Dict.index_by (λ c. c.path) (henan_catalog ∷ []) [])
        (henan_record ∷ [])
        (manifest_map (henan_entry ∷ [])))
      (counting_25 (henan_entry ∷ []))
unfolding compare_audit compare_round find_record match_hier match_text exp_level exp_parent exp_cid
    exp_md5 level_text opt_eq Dict.get Dict.index_by Dict.put text_eq codes manifest_map counting_25
    in_closed_set flag
compare_audit-IsConsistent_example =
    compare_audit-IsConsistent (henan_catalog ∷ []) (henan_record ∷ []) (henan_entry ∷ []) refl

read_registry-encode_state_example :
    read_registry (encode_state registry []) ≡ ok (registry.last_updated, registry.records)
read_registry-encode_state_example = read_registry-encode_state registry [] registry-IsState

registry-IsDistinct : IsDistinct registry.records
registry-IsDistinct = (tt, tt)

read_registry-fetch_onchain_records_example :
    (s : Snapshot) × (fetch_onchain_records (encode_state registry []) ≡ ok s)
    × (s.last_updated ≡ registry.last_updated)
    × ((name : Text) → find_record name registry.records ≡ Dict.get name s.records)
read_registry-fetch_onchain_records_example =
    read_registry-fetch_onchain_records (encode_state registry []) registry.last_updated
      registry.records (read_registry-encode_state registry [] registry-IsState) registry-IsDistinct
