-- ===== src/Region/Fetch.antt =====
-- scripts/process_one_region.py: the regions, ssh, and the steps up to a CID on the VPS.
use atlasmirror.Prelude.{
  ℕ, zero, suc, Text, codes, lower, text_eq, Bool, false, not, ◌&&◌, Option, none, some, List, [],
  ◌∷◌, ◌++◌, length, starts_with, ◌==◌, if◌then◌else◌,
}
use atlasmirror.Outcome.{Error, runtime_error, value_error}
use atlasmirror.Strings.{strip, parse_int, is_digit}
use atlasmirror.Dict
use atlasmirror.Dict.{Dict}
use atlasmirror.Json.{Json, arr, nil}
use atlasmirror.Storage.{parse_manifests, find_candidate, cid_of}
use atlasmirror.Catalog.{CatalogEntry}
use atlasmirror.Host.{
  Host, Remote, manifests, published_md5, head, staging_md5, md5sum, file_size, upload, download,
  ssh, sleep_ms, Completed, Io, pure, raise, or_raise, assert, lift, on_option, when, ask, perform,
  ◌>>=◌, ◌>>◌,
}

pub record Info : Type 0 where
  pub country : Text
  pub parent : Option Text
  pub level : Text
  pub pbf_url : Text
  pub md5_url : Text
  pub name : Text

-- parent == t
abbrev is_child : Option Text → Text → Bool
is_child none t = false
is_child (some p) t = text_eq p t

country_of : CatalogEntry → Text
country_of r =
    if is_child r.parent (codes "china")
    then codes "China"
    else if is_child r.parent (codes "india")
    then codes "India"
    else if is_child r.parent (codes "us")
    then codes "United States"
    else if is_child r.parent (codes "russia")
    then codes "Russia"
    else r.name

info_of : CatalogEntry → Info
info_of r = record {
  country = country_of r;
  parent = r.parent;
  level = r.level;
  pbf_url = r.geofabrik_url;
  md5_url = r.md5_url;
  name = r.name;
}

infos : List CatalogEntry → Dict Info → Dict Info
infos [] d = d
infos (r ∷ rs) d = infos rs (Dict.put r.path (info_of r) d)

pub regions_info : List CatalogEntry → Dict Info
regions_info rs = infos rs []

-- "staging_{clean_name}.osm.pbf", the name of the staging file
clean_name : Text → Text
clean_name [] = []
clean_name (c ∷ s) = (if c == b'/' then b'_' else c) ∷ clean_name s

pub staging_filename : Text → Text
staging_filename region = codes "staging_" ++ (clean_name region ++ codes ".osm.pbf")

pub staging_file : Text → Text
staging_file region = codes "/root/atlasmirror_vps/" ++ staging_filename region

-- -(\d{2})(\d{2})(\d{2})\.osm\.pbf at the start of a text, as "20yy-mm-dd"
date_here : Text → Option Text
date_here (dash ∷ a ∷ b ∷ c ∷ d ∷ e ∷ f ∷ s) =
    if dash == b'-'
      && is_digit a
      && is_digit b
      && is_digit c
      && is_digit d
      && is_digit e
      && is_digit f
      && starts_with s (codes ".osm.pbf")
    then some (codes "20" ++ (a ∷ b ∷ b'-' ∷ c ∷ d ∷ b'-' ∷ e ∷ f ∷ []))
    else none
date_here _ = none

-- re.search of that pattern
pub find_date : Text → Option Text
find_date [] = none
find_date (c ∷ s) = elim (date_here (c ∷ s)) [ none ↦ find_date s | some d ↦ some d ]

-- (.*) up to the end of the line
line_rest : Text → Text
line_rest [] = []
line_rest (c ∷ s) = if c == 0x0a then [] else c ∷ line_rest s

drop_prefix : Text → Text → Option Text
drop_prefix [] s = some s
drop_prefix (p ∷ ps) [] = none
drop_prefix (p ∷ ps) (c ∷ s) =
    if text_eq (lower (c ∷ [])) (lower (p ∷ [])) then drop_prefix ps s else none

-- re.search(r"Last-Modified: (.*)", …, re.IGNORECASE)
find_modified : Text → Option Text
find_modified [] = none
find_modified (c ∷ s) = elim (drop_prefix (codes "Last-Modified: ") (c ∷ s)) [
  | none ↦ find_modified s
  | some t ↦ some (line_rest t)
]

module _ (host : Host) where
  -- run_ssh(cmd, check=True)
  unfoldable pub run_ssh : Remote → Io Completed
  run_ssh c = do r ← perform host (ssh c); if r.returncode == 0 then pure r else raise runtime_error

  -- run_ssh(cmd, check=False) and the first line that can be read; else the empty list
  unfoldable pub get_vps_manifests : Io Json
  get_vps_manifests = do
    r ← perform host (ssh manifests)
    pure (elim (parse_manifests r.stdout) [ none ↦ arr nil | some v ↦ v ])

  -- step 1
  unfoldable pub fetch_published_md5 : Text → Io Text
  fetch_published_md5 url = do
    r ← run_ssh (published_md5 url)
    let md5 = lower (strip r.stdout)
    assert (length md5 == 32)
    pure md5

  pub version_of : Text → Text
  version_of out = elim (find_date out) [
    | some d ↦ d
    | none ↦ elim (find_modified out) [
      | none ↦ codes "2026-09-20"
      | some t ↦ elim (host.http_date (strip t)) [ none ↦ codes "2026-09-20" | some d ↦ d ]
    ]
  ]

  unfoldable pub fetch_version : Text → Io Text
  fetch_version url = do r ← run_ssh (head url); pure (version_of r.stdout)

  unfoldable pub download_staging : Text → Text → Text → Io (Unit {0})
  download_staging path url md5 = do
    run_ssh (download path url)
    r ← run_ssh (md5sum path)
    assert (text_eq (lower (strip r.stdout)) md5)

  -- step 2, and the size of the staging file
  unfoldable pub stage_file : Text → Text → Text → Io ℕ
  stage_file path url md5 = do
    r ← run_ssh (staging_md5 path)
    when (not (text_eq (lower (strip r.stdout)) md5)) (download_staging path url md5)
    s ← run_ssh (file_size path)
    or_raise value_error (parse_int (strip s.stdout))

  unfoldable pub find_hosted : Text → ℕ → Io (Option Json)
  find_hosted name size = do m ← get_vps_manifests; lift (find_candidate name size m)

  -- the loop over `range(30)`
  unfoldable pub poll_cid : ℕ → Text → ℕ → Io (Option Text)
  poll_cid zero name size = pure none
  poll_cid (suc n) name size = do
    ask host (sleep_ms 2000)
    m ← find_hosted name size
    on_option m (poll_cid n name size) (λ c. pure (cid_of (some c)))

  -- step 3
  unfoldable pub host_file : Text → Text → ℕ → Io Text
  host_file path name size = do
    m ← find_hosted name size
    c ← on_option (cid_of m) (do run_ssh (upload path); poll_cid 30 name size) (λ c. pure (some c))
    or_raise Error.assertion_error c
