-- ===== src/Region/Examples.antt =====
-- A small world for scripts/process_one_region.py, and the properties in it.
use atlasmirror.Prelude.{◌≤◌, refl, some, arith, codes, none, List, [], ◌∷◌}
use atlasmirror.Catalog.{CatalogEntry}
use atlasmirror.Host.{Host, Request, Answer, History, read_manifest}
use atlasmirror.Region.Updates.{manifest_after, IsFaithful, Processed}
use atlasmirror.Region.Refines.{process_region-Processed}
use atlasmirror.Region.Distinct.{IsDistinct, IsReachable, process_region-IsDistinct}
use atlasmirror.Host.World.{host_with}
use atlasmirror.Region.Publish.{process_region}
use atlasmirror.Region.Gate.{Gate}
use atlasmirror.Region.Submits.{registrations, registrations-process_region}
use atlasmirror.Region.Gated.{process_region-Gate}

abbrev one_region : List CatalogEntry
one_region =
    record {
      path = codes "m";
      name = codes "M";
      parent = none;
      level = codes "Country";
      geofabrik_url = codes "u";
      md5_url = codes "v";
    }
    ∷ []

process_region-Gate_example :
    Gate (host_with []) (process_region (host_with []) one_region (codes "m") []).1
process_region-Gate_example =
    process_region-Gate (host_with []) one_region (codes "m") [] Gate.start

registrations-process_region_example :
    registrations (process_region (host_with []) one_region (codes "m") []).1 ≤ 3
registrations-process_region_example =
    registrations-process_region (host_with []) one_region (codes "m") []

-- The small world, where a read of the manifest gives what was written last.
abbrev faithful_answer : (r : Request) → (h : History) → Answer r
faithful_answer read_manifest h = some (manifest_after [] h)
faithful_answer r h = (host_with []).answer r h

abbrev faithful_host : Host
faithful_host = record {
  answer = faithful_answer;
  md5 = (host_with []).md5;
  sha256 = (host_with []).sha256;
  http_date = (host_with []).http_date;
  utc_date = (host_with []).utc_date;
}

faithful_host-IsFaithful : IsFaithful faithful_host []
faithful_host-IsFaithful = record { at = λ h. refl }

process_region-Processed_example : Processed (codes "m") [] (
  (process_region faithful_host one_region (codes "m") []).0,
  manifest_after [] (process_region faithful_host one_region (codes "m") []).1,
)
process_region-Processed_example =
    process_region-Processed faithful_host [] one_region (codes "m") [] faithful_host-IsFaithful

no_entries-IsDistinct : IsDistinct []
no_entries-IsDistinct = record { at = λ name. omega arith }

process_region-IsDistinct_example :
    IsDistinct (manifest_after [] (process_region faithful_host one_region (codes "m") []).1)
process_region-IsDistinct_example =
    process_region-IsDistinct faithful_host []
      (process_region faithful_host one_region (codes "m") []).1 faithful_host-IsFaithful
      no_entries-IsDistinct (IsReachable.run one_region (codes "m") [] IsReachable.start)
