-- ===== src/Catalog.antt =====
-- The closed set of regions, metadata/regions.json, as the scripts read it.
use atlasmirror.Prelude.{Text, Option}

-- An item of "regions".
pub record CatalogEntry : Type 0 where
  pub path : Text
  pub name : Text
  pub parent : Option Text
  pub level : Text
  pub geofabrik_url : Text
  pub md5_url : Text
