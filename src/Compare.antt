-- ===== src/Compare.antt =====
-- scripts/compare_audit.py and scripts/fix_15_hierarchy.py: the registry's records as a list against
-- the catalog and the manifest, and the batch that is to repair their place in the hierarchy.
mod Known
mod Clean
mod Agreement
mod Decoding
mod Examples
use atlasmirror.Prelude.{
  ℕ, zero, suc, ◌+◌, max, Text, codes, text_eq, Bool, true, false, not, ◌&&◌, ◌||◌, Option, none,
  some, List, [], ◌∷◌, map, take, keep, find_first, if◌then◌else◌,
}
use atlasmirror.Outcome.{Result, ok, err, ◌>>=◌}
use atlasmirror.Dict
use atlasmirror.Dict.{Dict}
use atlasmirror.Manifest.{Entry, flag}
use atlasmirror.Catalog.{CatalogEntry}
use atlasmirror.Onchain.{Level, country, Record, read_u64, read_u32, read_record}
use atlasmirror.Audit.{level_text, opt_eq}

-- for i in range(num_records): records.append(…)
unfoldable pub list_records : ℕ → List ℕ → Result (List Record × List ℕ)
list_records zero bs = ok ([], bs)
list_records (suc n) bs = do
  (r, rest) ← read_record bs
  (rs, rest') ← list_records n rest
  ok (r ∷ rs, rest')

-- `last_updated` and `records` of the account's bytes
unfoldable pub read_registry : List ℕ → Result (ℕ × List Record)
read_registry raw = do
  (total, a) ← read_u64 raw
  (last_updated, b) ← read_u64 a
  (n, c) ← read_u32 b
  (rs, rest) ← list_records n c
  ok (last_updated, rs)

-- next((r for r in records if r['region'] == reg_name), None)
unfoldable pub find_record : Text → List Record → Option Record
find_record region rs = find_first (λ r. text_eq r.region region) rs

unfoldable pub in_closed_set : Entry → Bool
in_closed_set e = flag e.in_closed_set

unfoldable pub counting_25 : List Entry → List Text
unfolding in_closed_set
counting_25 es = take 25 (map (λ e. e.region) (keep in_closed_set es))

unfoldable pub manifest_map : List Entry → Dict Entry
unfolding in_closed_set
manifest_map es = Dict.index_by (λ e. e.region) (keep in_closed_set es) []

-- `exp_lvl`, `exp_parent`
unfoldable pub exp_level : Option CatalogEntry → Text
exp_level none = codes "country"
exp_level (some c) = c.level

unfoldable pub exp_parent : Option CatalogEntry → Option Text
exp_parent none = none
exp_parent (some c) = c.parent

-- onchain['level'] == exp_lvl and onchain['parent'] == exp_parent
unfoldable pub match_hier : Level → Option Text → Option CatalogEntry → Bool
match_hier level parent c = text_eq (level_text level) (exp_level c) && opt_eq parent (exp_parent c)

-- not exp or value == exp, where `exp` is '' with no entry
unfoldable pub match_text : Text → Text → Bool
match_text value expected = text_eq expected [] || text_eq value expected

unfoldable pub exp_cid : Option Entry → Text
exp_cid none = []
exp_cid (some e) = e.cid

unfoldable pub exp_md5 : Option Entry → Text
exp_md5 none = []
exp_md5 (some e) = e.geofabrik_md5

pub data Difference : Type 0 where
  missing_on_chain : Text → Difference
  differs : Text → Bool → Bool → Bool → Difference

module _ (cat_map : Dict CatalogEntry) (records : List Record) where
  module _ (man_map : Dict Entry) where
    -- one round, in front of what the later rounds find
    unfoldable pub compare_round : Text → List Difference → List Difference
    compare_round name later = elim (find_record name records) [
      | none ↦ missing_on_chain name ∷ later
      | some r ↦
          (if match_hier r.level r.parent (Dict.get name cat_map)
              && match_text r.cid (exp_cid (Dict.get name man_map))
              && match_text r.checksum (exp_md5 (Dict.get name man_map))
            then later
            else differs name (match_hier r.level r.parent (Dict.get name cat_map))
                (match_text r.cid (exp_cid (Dict.get name man_map)))
                (match_text r.checksum (exp_md5 (Dict.get name man_map)))
              ∷ later)
    ]

    -- `mismatches` of compare_audit.py
    unfoldable pub compare_audit : List Text → List Difference
    compare_audit [] = []
    compare_audit (name ∷ names) = compare_round name (compare_audit names)

  -- the records that fix_15_hierarchy.py finds: a region with no record is passed over
  unfoldable pub misplaced : List Text → List Record
  misplaced [] = []
  misplaced (name ∷ names) =
      let rest = misplaced names in
      elim (find_record name records) [
        | none ↦ rest
        | some r ↦ if match_hier r.level r.parent (Dict.get name cat_map) then rest else r ∷ rest
      ]

-- max(int(time.time()), last_updated + 100)
unfoldable pub batch_time : ℕ → ℕ → ℕ
batch_time now last_updated = max now (last_updated + 100)

unfoldable pub batch_record : ℕ → Record → Record
batch_record ts m = record m { parent = none; level = country; hosted = true; timestamp = ts }

unfoldable pub batch_records : ℕ → List Record → List Record
batch_records ts ms = map (batch_record ts) ms
