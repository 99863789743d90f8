-- ===== src/Coverage/Examples.antt =====
-- Runs of scripts/run_a1_coverage.py in a small world, and the properties in it.
use atlasmirror.Prelude.{
  ℕ, ◌≤◌, length, zero, suc, ◌%◌, ◌≡◌, refl, codes, text_eq, starts_with, true, none, some, List,
  [], ◌∷◌,
}
use atlasmirror.Manifest.{Entry, save_manifest}
use atlasmirror.Coverage.Lost.{save_manifest-entry_of}
use atlasmirror.Host.{disk_free, Registration}
use atlasmirror.Host.World.{concatenation-IsHashlib, host_with}
use atlasmirror.Coverage.Plan.{PlanItem, exact_match}
use atlasmirror.Coverage.Assertions.{IsCovered}
use atlasmirror.Strings.{
  splitlines, includes, strip, strip_of, lstrip, rstrip, words, parse_int, remove_all,
}
use atlasmirror.Json.{loads, at, last_field}
use atlasmirror.Storage.{spr_of, is_spr_line, is_success}
use atlasmirror.Manifest.{count_countries, opt_text_eq}
use atlasmirror.Manifest.Texts.{distinct, distinct_onto, add, contains}
use atlasmirror.Host.{
  disk_free, ◌>>=◌, pure, raise, or_raise, on_option, assert, lift, ask, perform, when,
}
use atlasmirror.Coverage.Remote.{try_again, run_ssh, get_vps_spr, spr_attempts, first_spr}
use atlasmirror.Coverage.Register.{save_progress, commit_progress, last_entry, entry_of}
use atlasmirror.Coverage.Assertions.{
  retrievable_count, md5_match_count, count_by, or_key_error, final_assertions,
}
use atlasmirror.Coverage.Run.{run_coverage, preflight, resume, cover_all, fourth}
use atlasmirror.Coverage.Covered.{run_coverage-IsCovered}
use atlasmirror.Coverage.Retries.{IsFinished, run_ssh_ends}
use atlasmirror.Coverage.Gate.{Attested, run_coverage-Attested}

abbrev small_plan : List PlanItem
small_plan =
    record {
      region = codes "m";
      country = codes "M";
      parent = none;
      level = codes "country";
      pbf_url = codes "u";
      md5_url = codes "v";
      approx_mb = 1;
    }
    ∷ []

run_coverage-Attested_example :
    Attested (host_with []) (run_coverage (host_with []) small_plan []).1
run_coverage-Attested_example =
    run_coverage-Attested (host_with []) small_plan [] concatenation-IsHashlib
      concatenation-IsHashlib Attested.start

-- The entry of this number, of one of 15 countries.
abbrev done_entry : ℕ → Entry
done_entry n = record {
  region = n ∷ [];
  parent = none;
  level = codes "country";
  country = (n % 15) ∷ [];
  source_url = [];
  version = [];
  size = 4;
  geofabrik_md5 = n ∷ [];
  cid = n ∷ [];
  registry_tx = [];
  block = some 7;
  timestamp = 9;
  in_closed_set = none;
  status = none;
  external_retrieval = some (exact_match 4 (n ∷ []));
}

abbrev done_entries : ℕ → List Entry
done_entries zero = []
done_entries (suc n) = done_entry n ∷ done_entries n

abbrev finished : List Entry
finished = done_entries 25

-- With all of the plan in the manifest, a run checks it and ends.
run_coverage-IsCovered_example : IsCovered finished
unfolding run_coverage preflight resume cover_all save_progress commit_progress try_again run_ssh
    get_vps_spr spr_attempts first_spr spr_of is_spr_line is_success at last_field loads splitlines
    includes strip strip_of lstrip rstrip words parse_int remove_all fourth retrievable_count
    md5_match_count count_by or_key_error final_assertions count_countries distinct distinct_onto
    add contains opt_text_eq text_eq codes starts_with ◌>>=◌ pure raise or_raise on_option assert
    lift ask perform when last_entry
run_coverage-IsCovered_example = run_coverage-IsCovered (host_with finished) [] [] _ finished refl

run_ssh_ends_example :
    IsFinished (run_ssh (host_with []) true disk_free []).0
    × (length (run_ssh (host_with []) true disk_free []).1 ≤ 40)
run_ssh_ends_example = run_ssh_ends (host_with []) disk_free []

-- an entry between two others
abbrev monaco_item : PlanItem
monaco_item = record {
  region = codes "monaco";
  country = codes "M";
  parent = none;
  level = codes "Country";
  pbf_url = [];
  md5_url = [];
  approx_mb = 1;
}

abbrev monaco_registration : Registration
monaco_registration = record {
  region = codes "monaco";
  cid = codes "z";
  md5 = codes "5";
  url = [];
  version = [];
  timestamp = 9;
}

abbrev monaco_entry : Entry
monaco_entry =
    entry_of monaco_item monaco_registration (codes "t") 7 4
      (record { size = 4; md5 = codes "5"; sha256 = codes "6" })

abbrev closed_entry : ℕ → Entry
closed_entry n = record (done_entry n) { in_closed_set = some true }

save_manifest-entry_of_example :
    save_manifest 5 (closed_entry 1 ∷ monaco_entry ∷ closed_entry 2 ∷ [])
    ≡ save_manifest 5 (closed_entry 1 ∷ closed_entry 2 ∷ [])
save_manifest-entry_of_example =
    save_manifest-entry_of 5 (closed_entry 1 ∷ []) (closed_entry 2 ∷ []) monaco_item
      monaco_registration (codes "t") 7 4 (record { size = 4; md5 = codes "5"; sha256 = codes "6" })
