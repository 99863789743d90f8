-- ===== src/Coverage/Plan.antt =====
-- The plan of scripts/run_a1_coverage.py, and the entry that it starts with.
use atlasmirror.Prelude.{ℕ, Text, String, codes, Option, none, some, List, [], ◌∷◌}
use atlasmirror.Manifest.{Entry, Retrieval}

-- An item of REGIONS_PLAN.
pub record PlanItem : Type 0 where
  pub region : Text
  pub country : Text
  pub parent : Option Text
  pub level : Text
  pub pbf_url : Text
  pub md5_url : Text
  pub approx_mb : ℕ

abbrev in_plan : String → String → Option Text → String → String → String → ℕ → PlanItem
in_plan region country parent level pbf_url md5_url approx_mb = record {
  region = codes region;
  country = codes country;
  parent = parent;
  level = codes level;
  pbf_url = codes pbf_url;
  md5_url = codes md5_url;
  approx_mb = approx_mb;
}

abbrev pub regions_plan : List PlanItem
regions_plan =
    in_plan "africa/ethiopia" "Ethiopia" none "country"
      "https://download.geofabrik.de/africa/ethiopia-latest.osm.pbf"
      "https://download.geofabrik.de/africa/ethiopia-latest.osm.pbf.md5" 133
    ∷ in_plan "asia/pakistan" "Pakistan" none "country"
        "https://download.geofabrik.de/asia/pakistan-latest.osm.pbf"
        "https://download.geofabrik.de/asia/pakistan-latest.osm.pbf.md5" 149
    ∷ in_plan "europe/bulgaria" "Bulgaria" none "country"
        "https://download.geofabrik.de/europe/bulgaria-latest.osm.pbf"
        "https://download.geofabrik.de/europe/bulgaria-latest.osm.pbf.md5" 166
    ∷ in_plan "africa/egypt" "Egypt" none "country"
        "https://download.geofabrik.de/africa/egypt-latest.osm.pbf"
        "https://download.geofabrik.de/africa/egypt-latest.osm.pbf.md5" 170
    ∷ in_plan "asia/iran" "Iran" none "country"
        "https://download.geofabrik.de/asia/iran-latest.osm.pbf"
        "https://download.geofabrik.de/asia/iran-latest.osm.pbf.md5" 219
    ∷ in_plan "africa/morocco" "Morocco" none "country"
        "https://download.geofabrik.de/africa/morocco-latest.osm.pbf"
        "https://download.geofabrik.de/africa/morocco-latest.osm.pbf.md5" 232
    ∷ in_plan "asia/malaysia-singapore-brunei" "Malaysia" none "country"
        "https://download.geofabrik.de/asia/malaysia-singapore-brunei-latest.osm.pbf"
        "https://download.geofabrik.de/asia/malaysia-singapore-brunei-latest.osm.pbf.md5" 240
    ∷ in_plan "europe/malta" "Malta" none "country"
        "https://download.geofabrik.de/europe/malta-latest.osm.pbf"
        "https://download.geofabrik.de/europe/malta-latest.osm.pbf.md5" 7
    ∷ in_plan "central-america/belize" "Belize" none "country"
        "https://download.geofabrik.de/central-america/belize-latest.osm.pbf"
        "https://download.geofabrik.de/central-america/belize-latest.osm.pbf.md5" 17
    ∷ in_plan "europe/macedonia" "North Macedonia" none "country"
        "https://download.geofabrik.de/europe/macedonia-latest.osm.pbf"
        "https://download.geofabrik.de/europe/macedonia-latest.osm.pbf.md5" 28
    ∷ in_plan "europe/kosovo" "Kosovo" none "country"
        "https://download.geofabrik.de/europe/kosovo-latest.osm.pbf"
        "https://download.geofabrik.de/europe/kosovo-latest.osm.pbf.md5" 29
    ∷ in_plan "asia/jordan" "Jordan" none "country"
        "https://download.geofabrik.de/asia/jordan-latest.osm.pbf"
        "https://download.geofabrik.de/asia/jordan-latest.osm.pbf.md5" 30
    ∷ in_plan "europe/montenegro" "Montenegro" none "country"
        "https://download.geofabrik.de/europe/montenegro-latest.osm.pbf"
        "https://download.geofabrik.de/europe/montenegro-latest.osm.pbf.md5" 33
    ∷ in_plan "central-america/el-salvador" "El Salvador" none "country"
        "https://download.geofabrik.de/central-america/el-salvador-latest.osm.pbf"
        "https://download.geofabrik.de/central-america/el-salvador-latest.osm.pbf.md5" 33
    ∷ in_plan "central-america/panama" "Panama" none "country"
        "https://download.geofabrik.de/central-america/panama-latest.osm.pbf"
        "https://download.geofabrik.de/central-america/panama-latest.osm.pbf.md5" 35
    ∷ in_plan "europe/cyprus" "Cyprus" none "country"
        "https://download.geofabrik.de/europe/cyprus-latest.osm.pbf"
        "https://download.geofabrik.de/europe/cyprus-latest.osm.pbf.md5" 36
    ∷ in_plan "central-america/costa-rica" "Costa Rica" none "country"
        "https://download.geofabrik.de/central-america/costa-rica-latest.osm.pbf"
        "https://download.geofabrik.de/central-america/costa-rica-latest.osm.pbf.md5" 37
    ∷ in_plan "asia/azerbaijan" "Azerbaijan" none "country"
        "https://download.geofabrik.de/asia/azerbaijan-latest.osm.pbf"
        "https://download.geofabrik.de/asia/azerbaijan-latest.osm.pbf.md5" 44
    ∷ in_plan "europe/luxembourg" "Luxembourg" none "country"
        "https://download.geofabrik.de/europe/luxembourg-latest.osm.pbf"
        "https://download.geofabrik.de/europe/luxembourg-latest.osm.pbf.md5" 45
    ∷ in_plan "asia/tajikistan" "Tajikistan" none "country"
        "https://download.geofabrik.de/asia/tajikistan-latest.osm.pbf"
        "https://download.geofabrik.de/asia/tajikistan-latest.osm.pbf.md5" 46
    ∷ in_plan "asia/lebanon" "Lebanon" none "country"
        "https://download.geofabrik.de/asia/lebanon-latest.osm.pbf"
        "https://download.geofabrik.de/asia/lebanon-latest.osm.pbf.md5" 50
    ∷ in_plan "asia/armenia" "Armenia" none "country"
        "https://download.geofabrik.de/asia/armenia-latest.osm.pbf"
        "https://download.geofabrik.de/asia/armenia-latest.osm.pbf.md5" 51
    ∷ in_plan "europe/albania" "Albania" none "country"
        "https://download.geofabrik.de/europe/albania-latest.osm.pbf"
        "https://download.geofabrik.de/europe/albania-latest.osm.pbf.md5" 52
    ∷ in_plan "central-america/nicaragua" "Nicaragua" none "country"
        "https://download.geofabrik.de/central-america/nicaragua-latest.osm.pbf"
        "https://download.geofabrik.de/central-america/nicaragua-latest.osm.pbf.md5" 59
    ∷ []

-- "external_retrieval" of a verified entry
abbrev pub exact_match : ℕ → Text → Retrieval
exact_match size md5 = record {
  status = some (codes "VERIFIED_EXACT_MATCH");
  retrieved_size = size;
  retrieved_md5 = some md5;
}

abbrev pub henan_entry : Entry
henan_entry = record {
  region = codes "china/henan";
  parent = some (codes "china");
  level = codes "subregion";
  country = codes "China";
  source_url = codes "https://download.geofabrik.de/asia/china/henan-latest.osm.pbf";
  version = codes "2026-09-20";
  size = 49157919;
  geofabrik_md5 = codes "0055ebfc7f14585c56d53a88062d5814";
  cid = codes "zDvZRwzm4i6cSYFNEAUzyEGTJBroH2EJjc3FJNmbhoKRwagSZ1ny";
  registry_tx = codes "32652959bf18a43a2c1e7dcb170804a397fe8c9fe111fcd9159d812a67e94018";
  block = some 16949;
  timestamp = 1789905600;
  in_closed_set = none;
  status = none;
  external_retrieval = some (exact_match 49157919 (codes "0055ebfc7f14585c56d53a88062d5814"));
}
