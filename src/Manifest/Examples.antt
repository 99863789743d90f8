-- ===== src/Manifest/Examples.antt =====
-- Saves of a few entries, and the properties at these inputs.
use atlasmirror.Prelude.{
  ℕ, ◌+◌, ◌≡◌, refl, Text, codes, text_eq, Bool, true, false, Option, none, some, [], ◌∷◌, length,
  keep,
}
use atlasmirror.Manifest.{Entry, save_manifest, is_counting, is_extra, flag, opt_text_eq}
use atlasmirror.Manifest.Save.{
  is_dropped, save_manifest-save_manifest, save_manifest_conserves, IsSaved, save_manifest-IsSaved,
}

abbrev saved_entry : ℕ → Option Bool → Option Text → Entry
saved_entry n closed status = record {
  region = n ∷ [];
  parent = none;
  level = codes "Country";
  country = n ∷ [];
  source_url = [];
  version = [];
  size = 4;
  geofabrik_md5 = [];
  cid = [];
  registry_tx = [];
  block = some 7;
  timestamp = 9;
  in_closed_set = closed;
  status = status;
  external_retrieval = none;
}

-- an entry of scripts/run_a1_coverage.py, an extra one, and a counting one
abbrev bare : Entry
bare = saved_entry 1 none none

abbrev extra : Entry
extra = saved_entry 2 (some false) (some (codes "NON_COUNTING_EXTRA"))

abbrev counted : Entry
counted = saved_entry 3 (some true) (some (codes "A1_VERIFIED"))

save_manifest-save_manifest_example :
    save_manifest 6 (save_manifest 5 (extra ∷ bare ∷ counted ∷ [])).entries
    ≡ record (save_manifest 5 (extra ∷ bare ∷ counted ∷ [])) { timestamp = 6 }
save_manifest-save_manifest_example = save_manifest-save_manifest 5 6 (extra ∷ bare ∷ counted ∷ [])

save_manifest_conserves_example :
    (save_manifest 5 (extra ∷ bare ∷ counted ∷ [])).summary.total
      + (save_manifest 5 (extra ∷ bare ∷ counted ∷ [])).summary.extra
      + length (keep is_dropped (extra ∷ bare ∷ counted ∷ []))
    ≡ 3
save_manifest_conserves_example = save_manifest_conserves 5 (extra ∷ bare ∷ counted ∷ [])

save_manifest-IsSaved_example :
    IsSaved (extra ∷ bare ∷ counted ∷ []) (save_manifest 5 (extra ∷ bare ∷ counted ∷ []))
save_manifest-IsSaved_example = save_manifest-IsSaved 5 (extra ∷ bare ∷ counted ∷ [])

-- The bare entry is lost.
lost : (save_manifest 5 (extra ∷ bare ∷ counted ∷ [])).entries ≡ counted ∷ extra ∷ []
unfolding save_manifest is_counting is_extra flag opt_text_eq codes text_eq
lost = refl
