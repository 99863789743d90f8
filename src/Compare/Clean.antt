-- ===== src/Compare/Clean.antt =====
-- scripts/compare_audit.py: what a comparison without a difference shows.
use atlasmirror.Prelude.{
  ◌≡◌, ◌⊎◌, inl, inr, refl, ap, Text, codes, text_eq, text_eq_sound, Bool, true, false, ◌&&◌,
  Option, none, some, List, [], ◌∷◌, All, if◌then◌else◌, Option-cases, Bool-cases,
}
use atlasmirror.Dict
use atlasmirror.Dict.{Dict}
use atlasmirror.Manifest.{Entry}
use atlasmirror.Catalog.{CatalogEntry}
use atlasmirror.Onchain.{Record}
use atlasmirror.Audit.{level_text, opt_eq}
use atlasmirror.Compare.Known.{counting_25-IsKnown}
use atlasmirror.Compare.{
  counting_25, manifest_map, find_record, exp_level, exp_parent, exp_cid, exp_md5, match_hier,
  match_text, compare_round, compare_audit, Difference, differs,
}

-- The first record of the region agrees with the catalog, and with the manifest where that says something.
record Agrees (cat_map : Dict CatalogEntry) (records : List Record) (man_map : Dict Entry)
    (name : Text) : Type 0 where
  pub r : Record
  pub there : find_record name records ≡ some r
  pub level : level_text r.level ≡ exp_level (Dict.get name cat_map)
  pub parent : r.parent ≡ exp_parent (Dict.get name cat_map)
  pub cid : (exp_cid (Dict.get name man_map) ≡ []) ⊎ (r.cid ≡ exp_cid (Dict.get name man_map))
  pub md5 : (exp_md5 (Dict.get name man_map) ≡ []) ⊎ (r.checksum ≡ exp_md5 (Dict.get name man_map))

opt_eq_sound : (a b : Option Text) → opt_eq a b ≡ true → a ≡ b
unfolding opt_eq
opt_eq_sound none none h = refl
opt_eq_sound none (some t) h = cc
opt_eq_sound (some s) none h = cc
opt_eq_sound (some s) (some t) h = ap some (text_eq_sound s t h)

match_text_sound : (v e : Text) → match_text v e ≡ true → (e ≡ []) ⊎ (v ≡ e)
unfolding match_text
match_text_sound v e h = elim (Bool-cases (text_eq e [])) [
  | inl y ↦ inl (text_eq_sound e [] y)
  | inr n ↦ inr (text_eq_sound v e (rw n at h))
]

both : (a b : Bool) → (a && b) ≡ true → (a ≡ true) × (b ≡ true)
both true b h = (refl, h)
both false b h = cc

agree :
    (a b c : Bool) (d : Difference) (later : List Difference)
    → (if a && b && c then later else d ∷ later) ≡ []
    → (a ≡ true) × (b ≡ true) × (c ≡ true) × (later ≡ [])
agree true true true d later h = (refl, refl, refl, h)
agree true true false d later h = cc
agree true false c d later h = cc
agree false b c d later h = cc

module _ (cat_map : Dict CatalogEntry) (records : List Record) (man_map : Dict Entry) where
  not_nil : (d : Difference) (ds : List Difference) → d ∷ ds ≡ [] → ⊥
  not_nil d ds h = cc

  consistent :
      (name : Text) (r : Record) (later : List Difference)
      → find_record name records ≡ some r
      → (let hier = match_hier r.level r.parent (Dict.get name cat_map) in
          let cid = match_text r.cid (exp_cid (Dict.get name man_map)) in
          let md5 = match_text r.checksum (exp_md5 (Dict.get name man_map)) in
          if hier && cid && md5 then later else differs name hier cid md5 ∷ later)
        ≡ []
      → (later ≡ []) × Agrees cat_map records man_map name
  unfolding match_hier
  consistent name r later there h =
      let checks = agree _ _ _ _ _ h in
      (
        checks.3,
        record {
          r = r;
          there = there;
          level = text_eq_sound _ _ (both _ _ checks.0).0;
          parent = opt_eq_sound _ _ (both _ _ checks.0).1;
          cid = match_text_sound _ _ checks.1;
          md5 = match_text_sound _ _ checks.2;
        },
      )

  compare_round_clean :
      (name : Text) (later : List Difference)
      → compare_round cat_map records man_map name later ≡ []
      → (later ≡ []) × Agrees cat_map records man_map name
  unfolding compare_round
  compare_round_clean name later h = elim (Option-cases (find_record name records)) [
    | inl n ↦ absurd (not_nil _ _ (rw (n, compare_round) at h))
    | inr (r, there) ↦ consistent name r later there (rw (there, compare_round) at h)
  ]

  compare_audit_clean :
      (names : List Text)
      → compare_audit cat_map records man_map names ≡ []
      → All (Agrees cat_map records man_map) names
  unfolding compare_audit
  compare_audit_clean [] h = tt
  compare_audit_clean (name ∷ names) h =
      let (rest, now) = compare_round_clean name _ h in (now, compare_audit_clean names rest)

-- The record's place is the catalog's, or that of a country where the catalog does not have the region.
pub data IsPlaced : Option CatalogEntry → Record → Type 0 where
  listed :
      (c : CatalogEntry) (r : Record)
      → level_text r.level ≡ c.level
      → r.parent ≡ c.parent
      → IsPlaced (some c) r
  unlisted : (r : Record) → level_text r.level ≡ codes "country" → r.parent ≡ none → IsPlaced none r

-- The first record of the region has its place, and the CID and MD5 of the manifest's entry for the
-- region, where that has them.
pub record IsConsistent (cat_map : Dict CatalogEntry) (records : List Record) (man_map : Dict Entry)
    (name : Text) : Type 0 where
  pub r : Record
  pub e : Entry
  pub there : find_record name records ≡ some r
  pub place : IsPlaced (Dict.get name cat_map) r
  pub entry : Dict.get name man_map ≡ some e
  pub cid : (e.cid ≡ []) ⊎ (r.cid ≡ e.cid)
  pub md5 : (e.geofabrik_md5 ≡ []) ⊎ (r.checksum ≡ e.geofabrik_md5)

placed :
    (c : Option CatalogEntry) (r : Record)
    → level_text r.level ≡ exp_level c
    → r.parent ≡ exp_parent c
    → IsPlaced c r
unfolding exp_level exp_parent
placed none r level parent = unlisted r level parent
placed (some c) r level parent = listed c r level parent

module _ (cat_map : Dict CatalogEntry) (records : List Record) (man_map : Dict Entry) where
  Agrees-IsConsistent :
      (name : Text) (e : Entry)
      → Dict.get name man_map ≡ some e
      → Agrees cat_map records man_map name
      → IsConsistent cat_map records man_map name
  unfolding exp_cid exp_md5
  Agrees-IsConsistent name e entry a = record {
    r = a.r;
    e = e;
    there = a.there;
    place = placed (Dict.get name cat_map) a.r a.level a.parent;
    entry = entry;
    cid = rw entry at a.cid;
    md5 = rw entry at a.md5;
  }

  all-IsConsistent :
      (names : List Text)
      → All (λ name. (e : Entry) × (Dict.get name man_map ≡ some e)) names
      → All (Agrees cat_map records man_map) names
      → All (IsConsistent cat_map records man_map) names
  all-IsConsistent [] known agree = tt
  all-IsConsistent (name ∷ names) ((e, entry), known) (a, agree) =
      (Agrees-IsConsistent name e entry a, all-IsConsistent names known agree)

-- A comparison of the manifest's first 25 regions of the closed set that ends with no difference has
-- found for each a record: its level and parent are the catalog's, or those of a country where
-- the catalog does not have the region; and the manifest has an entry for the region, with the
-- record's CID and MD5 wherever it has a CID and an MD5 that are not empty.
pub compare_audit-IsConsistent :
    (catalog : List CatalogEntry) (records : List Record) (es : List Entry)
    → compare_audit
        (Dict.index_by (λ c. c.path) catalog [])
        records
        (manifest_map es)
        (counting_25 es)
      ≡ []
    → All
        (IsConsistent (Dict.index_by (λ c. c.path) catalog []) records (manifest_map es))
        (counting_25 es)
compare_audit-IsConsistent catalog records es h =
    all-IsConsistent _ records (manifest_map es) (counting_25 es) (counting_25-IsKnown es)
      (compare_audit_clean _ records (manifest_map es) (counting_25 es) h)
