-- ===== src/Compare/Decoding.antt =====
-- The decoder of scripts/compare_audit.py against the Borsh layout.
use atlasmirror.Prelude.{ℕ, ◌≡◌, refl, List, [], ◌∷◌, All, length}
use atlasmirror.Outcome.{ok}
use atlasmirror.Onchain.{Record}
use atlasmirror.Onchain.Borsh.{RegistryState, IsState, IsEncodable, encode_records, encode_state}
use atlasmirror.Onchain.RoundTrip.{read_u64-put_u64, read_u32-put_u32, read_record-encode_record}
use atlasmirror.Compare.{list_records, read_registry}

list_records-encode_records :
    (rs : List Record) (rest : List ℕ)
    → All IsEncodable rs
    → list_records (length rs) (encode_records rs rest) ≡ ok (rs, rest)
unfolding list_records encode_records
list_records-encode_records [] rest h = refl
list_records-encode_records (r ∷ rs) rest h =
    rw (read_record-encode_record r _ h.0) (rw (list_records-encode_records rs rest h.1))

-- Reading the bytes that Borsh writes for a state, whatever bytes follow them, gives the state's
-- timestamp and its records in their order. Strings are Unicode scalar values with byte
-- lengths below 2^32, and the counts and timestamps fit their u64 and u32 fields.
pub read_registry-encode_state :
    (s : RegistryState) (rest : List ℕ)
    → IsState s
    → read_registry (encode_state s rest) ≡ ok (s.last_updated, s.records)
unfolding read_registry encode_state
read_registry-encode_state s rest h = rw (read_u64-put_u64 s.total_regions _ h.total_regions) (
    rw (read_u64-put_u64 s.last_updated _ h.last_updated) (
      rw (read_u32-put_u32 (length s.records) _ h.count)
        (rw (list_records-encode_records s.records rest h.records))))
