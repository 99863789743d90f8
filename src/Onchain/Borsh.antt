-- ===== src/Onchain/Borsh.antt =====
-- The Borsh layout of the account: what the program of osm-registry writes for `RegistryState`
-- (osm-registry/registry_core/src/lib.rs), as the independent description of the decoder's input.
use atlasmirror.Prelude.{ℕ, zero, suc, ◌/◌, ◌%◌, ◌^◌, ◌<◌, Text, Bool, true, false}
use atlasmirror.Prelude.{Option, none, some, List, [], ◌∷◌, ◌++◌, length, All}
use atlasmirror.Onchain.{Level, country, subregion, Record}
use atlasmirror.Onchain.Utf8.Encode.{IsScalar, utf8_encode}

-- v in n little-endian bytes
unfoldable pub le_bytes : ℕ → ℕ → List ℕ
le_bytes zero v = []
le_bytes (suc n) v = (v % 256) ∷ le_bytes n (v / 256)

-- `encode` of each type, in front of the bytes that follow.
unfoldable pub put_u64 : ℕ → List ℕ → List ℕ
put_u64 v rest = le_bytes 8 v ++ rest

unfoldable pub put_u32 : ℕ → List ℕ → List ℕ
put_u32 v rest = le_bytes 4 v ++ rest

unfoldable pub put_string : Text → List ℕ → List ℕ
put_string s rest = put_u32 (length (utf8_encode s)) (utf8_encode s ++ rest)

unfoldable pub put_opt_string : Option Text → List ℕ → List ℕ
put_opt_string none rest = 0 ∷ rest
put_opt_string (some s) rest = 1 ∷ put_string s rest

unfoldable pub put_level : Level → List ℕ → List ℕ
put_level country rest = 0 ∷ rest
put_level subregion rest = 1 ∷ rest

unfoldable pub put_bool : Bool → List ℕ → List ℕ
put_bool false rest = 0 ∷ rest
put_bool true rest = 1 ∷ rest

unfoldable pub encode_record : Record → List ℕ → List ℕ
encode_record r rest = put_string r.region (
    put_opt_string r.parent (
      put_level r.level (
        put_string r.cid (
          put_string r.source_url (
            put_string r.checksum
              (put_string r.version (put_bool r.hosted (put_u64 r.timestamp rest))))))))

unfoldable pub encode_records : List Record → List ℕ → List ℕ
encode_records [] rest = rest
encode_records (r ∷ rs) rest = encode_record r (encode_records rs rest)

pub record RegistryState : Type 0 where
  pub total_regions : ℕ
  pub last_updated : ℕ
  pub records : List Record

unfoldable pub encode_state : RegistryState → List ℕ → List ℕ
encode_state s rest =
    put_u64 s.total_regions
      (put_u64 s.last_updated (put_u32 (length s.records) (encode_records s.records rest)))

-- A string of Unicode scalar values whose length in bytes fits the u32 prefix.
pub record IsString (s : Text) : Type 0 where
  pub scalars : All IsScalar s
  pub fits : length (utf8_encode s) < 256 ^ 4

abbrev pub IsOptString : Option Text → Type 0
IsOptString none = Unit
IsOptString (some s) = IsString s

pub record IsEncodable (r : Record) : Type 0 where
  pub region : IsString r.region
  pub parent : IsOptString r.parent
  pub cid : IsString r.cid
  pub source_url : IsString r.source_url
  pub checksum : IsString r.checksum
  pub version : IsString r.version
  pub timestamp : r.timestamp < 256 ^ 8

pub record IsState (s : RegistryState) : Type 0 where
  pub total_regions : s.total_regions < 256 ^ 8
  pub last_updated : s.last_updated < 256 ^ 8
  pub count : length s.records < 256 ^ 4
  pub records : All IsEncodable s.records
