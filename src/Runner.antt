-- ===== src/Runner.antt =====
-- What the scripts read in the output of the registry runner: `get_onchain_registry_state` and the
-- scan of a registration's output, both of scripts/process_one_region.py.
use atlasmirror.Prelude.{
  ℕ, Text, codes, Bool, ◌&&◌, Option, none, some, List, [], ◌∷◌, if◌then◌else◌, starts_with,
}
use atlasmirror.Strings.{
  splitlines, strip, strip_of, split, after, partition, first_word, parse_int, includes, remove_all,
}
use atlasmirror.Dict
use atlasmirror.Dict.{Dict}
use atlasmirror.Prelude.{◌==◌, ◌||◌}

-- `parts` of one record line
abbrev pub Parts : Type 0
Parts = Dict Text

pub record RegistryView : Type 0 where
  pub last_updated : ℕ
  pub records : Dict Parts

add_item : Text → Parts → Parts
add_item item parts = elim (partition b'=' item) [ none ↦ parts | some (k, v) ↦ Dict.put k v parts ]

items_loop : List Text → Parts → Parts
items_loop [] parts = parts
items_loop (item ∷ items) parts = items_loop items (add_item item parts)

-- The parts of a line that starts with REGION_RECORD:
pub record_parts : Text → Parts
record_parts line = items_loop (split (codes ", ") (remove_all (codes "REGION_RECORD: ") line)) []

file_record : Parts → Dict Parts → Dict Parts
file_record parts records = elim (Dict.get (codes "region") parts) [
  | none ↦ records
  | some region ↦ Dict.put region parts records
]

-- int(line.split("last_updated=")[1].strip()); an exception keeps the old value
read_last_updated : Text → ℕ → ℕ
read_last_updated line old = elim (after (codes "last_updated=") line) [
  | none ↦ old
  | some t ↦ elim (parse_int (strip t)) [ none ↦ old | some n ↦ n ]
]

-- One round of the loop over the lines.
view_line : Text → RegistryView → RegistryView
view_line line v = record {
  last_updated =
      if includes (codes "Registry State:") line && includes (codes "last_updated=") line
      then read_last_updated line v.last_updated
      else v.last_updated;
  records =
      if starts_with line (codes "REGION_RECORD:")
      then file_record (record_parts line) v.records
      else v.records;
}

view_lines : List Text → RegistryView → RegistryView
view_lines [] v = v
view_lines (line ∷ lines) v = view_lines lines (view_line line v)

pub registry_view : Text → RegistryView
registry_view stdout = view_lines (splitlines stdout) (record { last_updated = 0; records = [] })

-- `tx_hash` and `block_num` over the attempts
pub record Receipt : Type 0 where
  pub tx_hash : Option Text
  pub block_num : Option ℕ

abbrev is_quote : ℕ → Bool
is_quote c = c == b'\'' || c == b'"' || c == b'(' || c == b')' || c == b'[' || c == b']'

scan_tx : Text → Option Text → Option Text
scan_tx line old =
    if includes (codes "Transaction submitted! Hash:") line
    then elim (after (codes "Hash:") line) [
      | none ↦ old
      | some t ↦ some (strip_of is_quote (strip t))
    ]
    else old

block_part : Text → Option ℕ
block_part line = elim (after (codes "block") line) [
  | none ↦ none
  | some t ↦ elim (first_word (strip t)) [ none ↦ none | some w ↦ parse_int w ]
]

scan_block : Text → Option ℕ → Option ℕ
scan_block line old =
    if includes (codes "Transaction is included in block") line
    then elim (block_part line) [ none ↦ old | some n ↦ some n ]
    else old

scan_lines : List Text → Receipt → Receipt
scan_lines [] r = r
scan_lines (line ∷ lines) r =
    scan_lines lines
      (record { tx_hash = scan_tx line r.tx_hash; block_num = scan_block line r.block_num })

pub scan_receipt : Text → Receipt → Receipt
scan_receipt stdout = scan_lines (splitlines stdout)
