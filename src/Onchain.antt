-- ===== src/Onchain.antt =====
-- scripts/verify_a1_audit.py, `fetch_onchain_records`: the registry account's bytes, decoded.
-- The state of the nested readers is what is left of the account's bytes, `raw[offset:]`.
pub mod Utf8
pub mod Borsh
pub mod RoundTrip
pub mod Examples
use atlasmirror.Prelude.{ℕ, zero, suc, ◌+◌, ◌*◌, Text, Option, none, some, List, [], ◌∷◌}
use atlasmirror.Prelude.{Bool, true, false, not, take, drop, codes, text_eq, ◌==◌, if◌then◌else◌}
use atlasmirror.Outcome.{Result, ok, err, Error, struct_error, index_error, value_error, ◌>>=◌}
use atlasmirror.Dict
use atlasmirror.Dict.{Dict}
use Utf8.{utf8_decode}

pub data Level : Type 0 where
  country subregion : Level

-- A dictionary of `records`, keyed by region.
pub record Record : Type 0 where
  pub region : Text
  pub parent : Option Text
  pub level : Level
  pub cid : Text
  pub source_url : Text
  pub checksum : Text
  pub version : Text
  pub hosted : Bool
  pub timestamp : ℕ

abbrev pub Reader : Type 0 → Type 0
Reader A = List ℕ → Result (A × List ℕ)

-- struct.unpack_from of n little-endian bytes
unfoldable pub read_le : ℕ → Reader ℕ
read_le zero bs = ok (0, bs)
read_le (suc n) [] = err struct_error
read_le (suc n) (b ∷ bs) = do (v, rest) ← read_le n bs; ok (b + 256 * v, rest)

pub read_u64 : Reader ℕ
read_u64 = read_le 8

pub read_u32 : Reader ℕ
read_u32 = read_le 4

pub read_u8 : Reader ℕ
read_u8 [] = err index_error
read_u8 (b ∷ bs) = ok (b, bs)

-- A slice past the end is short, and the offset still moves by `l`.
pub read_string : Reader Text
read_string bs = do (l, rest) ← read_u32 bs; s ← utf8_decode (take l rest); ok (s, drop l rest)

read_opt_tag : ℕ → Reader (Option Text)
read_opt_tag tag bs =
    if tag == 0
    then ok (none, bs)
    else if tag == 1
    then (do (s, rest) ← read_string bs; ok (some s, rest))
    else err value_error

pub read_opt_string : Reader (Option Text)
unfolding read_opt_tag
read_opt_string bs = do (tag, rest) ← read_u8 bs; read_opt_tag tag rest

-- "country" if read_u8() == 0 else "subregion"
pub read_level : Reader Level
read_level bs = do (tag, rest) ← read_u8 bs; ok ((if tag == 0 then country else subregion), rest)

-- read_u8() != 0
pub read_flag : Reader Bool
read_flag bs = do (tag, rest) ← read_u8 bs; ok (not (tag == 0), rest)

-- One round of the loop over `num_records`.
pub read_record : Reader Record
read_record bs = do
  (reg, bs) ← read_string bs
  (par, bs) ← read_opt_string bs
  (lvl, bs) ← read_level bs
  (cid, bs) ← read_string bs
  (src, bs) ← read_string bs
  (cs, bs) ← read_string bs
  (ver, bs) ← read_string bs
  (h, bs) ← read_flag bs
  (ts, bs) ← read_u64 bs
  ok (
    record {
      region = reg;
      parent = par;
      level = lvl;
      cid = cid;
      source_url = src;
      checksum = cs;
      version = ver;
      hosted = h;
      timestamp = ts;
    },
    bs,
  )

abbrev pub Records : Type 0
Records = Dict Record

-- for _ in range(num_records)
unfoldable pub read_records : ℕ → Records → Reader Records
read_records zero records bs = ok (records, bs)
read_records (suc n) records bs = do
  (r, rest) ← read_record bs
  read_records n (Dict.put r.region r records) rest

pub record Snapshot : Type 0 where
  pub last_updated : ℕ
  pub records : Records

-- The count of regions is read and dropped, and bytes behind the last record are ignored.
unfoldable pub fetch_onchain_records : List ℕ → Result Snapshot
fetch_onchain_records raw = do
  (total_regions, bs) ← read_u64 raw
  (last_updated, bs) ← read_u64 bs
  (num_records, bs) ← read_u32 bs
  (records, bs) ← read_records num_records [] bs
  ok (record { last_updated = last_updated; records = records })
