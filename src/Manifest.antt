-- ===== src/Manifest.antt =====
-- The coverage manifest, evidence/a1-coverage-manifest.json, as the scripts read and write it,
-- and the partition of `save_manifest_and_docs` in scripts/process_one_region.py.
-- A key that the scripts read with `get` is an `Option`; the others are there in every entry.
use atlasmirror.Prelude.{
  ℕ, zero, suc, ◌+◌, ◌≤◌, ◌≡◌, refl, Text, Bool, true, false, not, ◌&&◌, ◌||◌, arith, codes,
  text_eq, leb, if◌then◌else◌,
}
use atlasmirror.Prelude.{Option, none, some, List, [], ◌∷◌, ◌++◌, length, keep, map}
pub mod Texts
pub mod Save
mod Examples
use Texts.{distinct}

-- "external_retrieval"
pub record Retrieval : Type 0 where
  pub status : Option Text
  pub retrieved_size : ℕ
  pub retrieved_md5 : Option Text

pub record Entry : Type 0 where
  pub region : Text
  pub parent : Option Text
  pub level : Text
  pub country : Text
  pub source_url : Text
  pub version : Text
  pub size : ℕ
  pub geofabrik_md5 : Text
  pub cid : Text
  pub registry_tx : Text
  pub block : Option ℕ
  pub timestamp : ℕ
  pub in_closed_set : Option Bool
  pub status : Option Text
  pub external_retrieval : Option Retrieval

-- e.get(k) == t
unfoldable pub opt_text_eq : Option Text → Text → Bool
opt_text_eq none t = false
opt_text_eq (some s) t = text_eq s t

-- e.get("in_closed_set", False) as a condition
unfoldable pub flag : Option Bool → Bool
flag none = false
flag (some b) = b

unfoldable pub is_counting : Entry → Bool
is_counting e = flag e.in_closed_set || opt_text_eq e.status (codes "A1_VERIFIED")

unfoldable pub is_extra : Entry → Bool
is_extra e = not (flag e.in_closed_set) && opt_text_eq e.status (codes "NON_COUNTING_EXTRA")

-- len({e["country"] for e in entries})
unfoldable pub count_countries : List Entry → ℕ
count_countries es = length (distinct (map (λ e. e.country) es))

pub data Status : Type 0 where
  verified remediation : Status

pub record Summary : Type 0 where
  pub total : ℕ
  pub represented : ℕ
  pub extra : ℕ
  pub status : Status

-- What `MANIFEST_FILE` holds: the time of the save in seconds, which the file has as a date, the
-- summary and the entries.
pub record ManifestFile : Type 0 where
  pub timestamp : ℕ
  pub summary : Summary
  pub entries : List Entry

unfoldable pub save_manifest : ℕ → List Entry → ManifestFile
save_manifest now es =
    let counting = keep is_counting es in
    let extra = keep is_extra es in
    let countries = count_countries counting in
    record {
      timestamp = now;
      summary = record {
        total = length counting;
        represented = countries;
        extra = length extra;
        status = if leb 25 (length counting) && leb 15 countries then verified else remediation;
      };
      entries = counting ++ extra;
    }
