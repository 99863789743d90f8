-- ===== src/Onchain/RoundTrip.antt =====
-- The decoder of scripts/verify_a1_audit.py reads back what the Borsh layout writes.
use atlasmirror.Prelude.{ℕ, zero, suc, ◌*◌, ◌/◌, ◌^◌, ◌<◌, ◌≡◌, refl, Text, Bool, true, false}
use atlasmirror.Prelude.{
  Option, none, some, List, [], ◌∷◌, ◌++◌, arith, length, All, take-append, drop-append,
}
use native.Mathlib.Nat.{pow-suc}
use atlasmirror.Dict
use atlasmirror.Outcome.{ok}
use atlasmirror.Onchain.{
  Level, country, subregion, Record, read_le, read_u64, read_u32, read_u8, read_string,
  read_opt_string, read_level, read_flag, read_record, read_records, Records, fetch_onchain_records,
}
use atlasmirror.Onchain.Utf8.Encode.{utf8_encode, utf8_decode-encode}
use atlasmirror.Onchain.Borsh.{
  le_bytes, put_u64, put_u32, put_string, put_opt_string, put_level, put_bool, encode_record,
  encode_records, encode_state, RegistryState, IsString, IsOptString, IsEncodable, IsState,
}

div_256-lt : (n v : ℕ) → v < 256 ^ suc n → v / 256 < 256 ^ n
div_256-lt n v h = let e : v < 256 ^ n * 256 = rw (← pow-suc) h in omega arith

read_le-le_bytes :
    (n v : ℕ) (rest : List ℕ) → v < 256 ^ n → read_le n (le_bytes n v ++ rest) ≡ ok (v, rest)
unfolding read_le le_bytes
read_le-le_bytes zero v rest h = ground arith
read_le-le_bytes (suc n) v rest h =
    rw (read_le-le_bytes n (v / 256) rest (div_256-lt n v h)) (ground arith)

pub read_u64-put_u64 :
    (v : ℕ) (rest : List ℕ) → v < 256 ^ 8 → read_u64 (put_u64 v rest) ≡ ok (v, rest)
unfolding read_u64 put_u64
read_u64-put_u64 = read_le-le_bytes 8

pub read_u32-put_u32 :
    (v : ℕ) (rest : List ℕ) → v < 256 ^ 4 → read_u32 (put_u32 v rest) ≡ ok (v, rest)
unfolding read_u32 put_u32
read_u32-put_u32 = read_le-le_bytes 4

read_string-put_string :
    (s : Text) (rest : List ℕ) → IsString s → read_string (put_string s rest) ≡ ok (s, rest)
unfolding read_string put_string
read_string-put_string s rest h = rw (read_u32-put_u32 (length (utf8_encode s)) _ h.fits) (
    rw (take-append (utf8_encode s) rest, drop-append (utf8_encode s) rest)
      (rw (utf8_decode-encode s h.scalars)))

read_opt_string-put_opt_string :
    (o : Option Text) (rest : List ℕ)
    → IsOptString o
    → read_opt_string (put_opt_string o rest) ≡ ok (o, rest)
unfolding read_opt_string put_opt_string read_u8
read_opt_string-put_opt_string none rest h = refl
read_opt_string-put_opt_string (some s) rest h = rw (read_string-put_string s rest h)

read_level-put_level : (l : Level) (rest : List ℕ) → read_level (put_level l rest) ≡ ok (l, rest)
unfolding read_level put_level read_u8
read_level-put_level country rest = refl
read_level-put_level subregion rest = refl

read_flag-put_bool : (b : Bool) (rest : List ℕ) → read_flag (put_bool b rest) ≡ ok (b, rest)
unfolding read_flag put_bool read_u8
read_flag-put_bool false rest = refl
read_flag-put_bool true rest = refl

pub read_record-encode_record :
    (r : Record) (rest : List ℕ) → IsEncodable r → read_record (encode_record r rest) ≡ ok (r, rest)
unfolding read_record encode_record
read_record-encode_record r rest h = rw (read_string-put_string r.region _ h.region) (
    rw (read_opt_string-put_opt_string r.parent _ h.parent) (
      rw (read_level-put_level r.level) (
        rw (read_string-put_string r.cid _ h.cid) (
          rw (read_string-put_string r.source_url _ h.source_url) (
            rw (read_string-put_string r.checksum _ h.checksum) (
              rw (read_string-put_string r.version _ h.version) (
                rw (read_flag-put_bool r.hosted)
                  (rw (read_u64-put_u64 r.timestamp _ h.timestamp)))))))))

read_records-encode_records :
    (rs : List Record) (acc : Records) (rest : List ℕ)
    → All IsEncodable rs
    → read_records (length rs) acc (encode_records rs rest)
      ≡ ok (Dict.index_by (λ q. q.region) rs acc, rest)
unfolding read_records encode_records Dict.index_by
read_records-encode_records [] acc rest h = refl
read_records-encode_records (r ∷ rs) acc rest h =
    rw (read_record-encode_record r _ h.0)
      (read_records-encode_records rs (Dict.put r.region r acc) rest h.1)

-- Decoding the bytes that Borsh writes for a state, whatever bytes follow them, gives the state's
-- timestamp and the dictionary of its records by region, a later record of a region in place of
-- an earlier one. Strings are Unicode scalar values with byte lengths below 2^32, and the counts
-- and timestamps fit their u64 and u32 fields.
pub fetch_onchain_records-encode_state :
    (s : RegistryState) (rest : List ℕ)
    → IsState s
    → fetch_onchain_records (encode_state s rest)
      ≡ ok (record {
        last_updated = s.last_updated;
        records = Dict.index_by (λ q. q.region) s.records [];
      })
unfolding fetch_onchain_records encode_state
fetch_onchain_records-encode_state s rest h =
    rw (read_u64-put_u64 s.total_regions _ h.total_regions) (
      rw (read_u64-put_u64 s.last_updated _ h.last_updated) (
        rw (read_u32-put_u32 (length s.records) _ h.count)
          (rw (read_records-encode_records s.records [] rest h.records))))
