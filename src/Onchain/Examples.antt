-- ===== src/Onchain/Examples.antt =====
-- A registry of one record, its bytes, and the round trips at these inputs.
use atlasmirror.Prelude.{ℕ, ◌<◌, inl, ◌≡◌, arith, true, some, [], ◌∷◌}
use atlasmirror.Outcome.{ok}
use atlasmirror.Dict
use atlasmirror.Onchain.{country, Record, fetch_onchain_records}
use atlasmirror.Onchain.Utf8.Encode.{IsScalar, utf8_encode}
use atlasmirror.Onchain.Borsh.{RegistryState, IsState, IsEncodable, IsString, encode_state}
use atlasmirror.Onchain.RoundTrip.{fetch_onchain_records-encode_state}

below_surrogates : (c : ℕ) → c < 0xd800 → IsScalar c
below_surrogates c h = (omega arith, inl h)

letter : (c : ℕ) → c < 0x80 → IsString (c ∷ [])
unfolding utf8_encode
letter c h = record { scalars = (below_surrogates c (omega arith), tt); fits = ground arith }

abbrev monaco : Record
monaco = record {
  region = 0x6d ∷ [];
  parent = some (0x65 ∷ []);
  level = country;
  cid = 0x7a ∷ [];
  source_url = 0x75 ∷ [];
  checksum = 0x63 ∷ [];
  version = 0x76 ∷ [];
  hosted = true;
  timestamp = 1790000000;
}

monaco-IsEncodable : IsEncodable monaco
monaco-IsEncodable = record {
  region = letter _ (omega arith);
  parent = letter _ (omega arith);
  cid = letter _ (omega arith);
  source_url = letter _ (omega arith);
  checksum = letter _ (omega arith);
  version = letter _ (omega arith);
  timestamp = omega arith;
}

abbrev pub registry : RegistryState
registry = record { total_regions = 1; last_updated = 1790000060; records = monaco ∷ [] }

pub registry-IsState : IsState registry
registry-IsState = record {
  total_regions = omega arith;
  last_updated = omega arith;
  count = omega arith;
  records = (monaco-IsEncodable, tt);
}

-- An account with zeros after the state.
fetch_onchain_records-encode_state_example :
    fetch_onchain_records (encode_state registry (0 ∷ 0 ∷ []))
    ≡ ok (record { last_updated = 1790000060; records = (0x6d ∷ [], monaco) ∷ [] })
unfolding Dict.index_by Dict.put
fetch_onchain_records-encode_state_example =
    fetch_onchain_records-encode_state registry (0 ∷ 0 ∷ []) registry-IsState
