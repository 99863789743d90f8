-- ===== src/Storage.antt =====
-- What the scripts read in the output of `logoscore call … --json` and in its event files.
use atlasmirror.Prelude.{
  ℕ, Text, codes, text_eq, Bool, true, false, ◌&&◌, Option, none, some, List, [], ◌∷◌,
  if◌then◌else◌, ◌==◌,
}
use atlasmirror.Outcome.{Result, ok, err, type_error, json_error, key_error}
use atlasmirror.Strings.{splitlines, strip, includes}
use atlasmirror.Json.{Json, Items, bool, nat, str, arr, obj, nil, cons, end, loads, at}

-- v.get(k, d) of an object; `none` is an AttributeError
get_or : Text → Json → Json → Option Json
get_or k (obj fs) d = elim (at k (obj fs)) [ none ↦ some d | some v ↦ some v ]
get_or k _ d = none

-- data.get("result", {}).get("value", []), in a `try` whose handler passes
pub manifests_of : Text → Option Json
manifests_of line = elim (loads line) [
  | none ↦ none
  | some v ↦ elim (get_or (codes "result") v (obj end)) [
    | none ↦ none
    | some r ↦ get_or (codes "value") r (arr nil)
  ]
]

unfoldable pub is_success : Text → Bool
is_success line = includes (codes "\"success\":true") line

-- The first line that passes the test and can be read.
manifests_in : List Text → Option Json
manifests_in [] = none
manifests_in (line ∷ lines) =
    let rest = manifests_in lines in
    if is_success line && includes (codes "\"result\"") line
    then elim (manifests_of line) [ none ↦ rest | some v ↦ some v ]
    else rest

pub parse_manifests : Text → Option Json
parse_manifests stdout = manifests_in (splitlines (strip stdout))

is_str : Option Json → Text → Bool
is_str (some (str s)) t = text_eq s t
is_str _ t = false

pub is_nat : Option Json → ℕ → Bool
is_nat (some (nat n)) m = n == m
is_nat _ m = false

-- candidate_m.get("cid"); a CID is a text, and an empty one counts as missing
pub cid_of : Option Json → Option Text
cid_of none = none
cid_of (some m) = elim (at (codes "cid") m) [ some (str (c ∷ s)) ↦ some (c ∷ s) | _ ↦ none ]

-- next((m for m in manifests if …), None)
find_items : Text → ℕ → Items → Result (Option Json)
find_items name size nil = ok none
find_items name size (cons (obj fs) xs) =
    if is_str (at (codes "filename") (obj fs)) name
      && is_nat (at (codes "datasetSize") (obj fs)) size
    then ok (some (obj fs))
    else find_items name size xs
find_items name size (cons _ xs) = err type_error

pub find_candidate : Text → ℕ → Json → Result (Option Json)
find_candidate name size (arr xs) = find_items name size xs
find_candidate name size _ = err type_error

-- json.loads(line)["result"]["value"]
unfoldable pub spr_of : Text → Result Text
spr_of line = elim (loads line) [
  | none ↦ err json_error
  | some v ↦ elim (at (codes "result") v) [
    | none ↦ err key_error
    | some r ↦ elim (at (codes "value") r) [ some (str s) ↦ ok s | _ ↦ err key_error ]
  ]
]

unfoldable pub is_spr_line : Text → Bool
is_spr_line line = is_success line && includes (codes "spr:CiU") line

-- What a line of the event file says: `some true` and `some false` are the event's success flag,
-- `none` another event or no flag. The outer `none` is an exception.
pub event_flag : Json → Option (Option Bool)
event_flag ev =
    if is_str (at (codes "event") ev) (codes "storageDownloadManifestDone")
    then elim (at (codes "data") ev) [
      | none ↦ none
      | some d ↦ elim (at (codes "arg0") d) [
        | some (str t) ↦ elim (loads t) [
          | some (obj fs) ↦ elim (at (codes "success") (obj fs)) [
            | some (bool b) ↦ some (some b)
            | _ ↦ some none
          ]
          | _ ↦ none
        ]
        | _ ↦ none
      ]
    ]
    else elim ev [ obj fs ↦ some none | _ ↦ none ]

-- `for l in …splitlines()`: a success ends the scan, an exception ends it with no success.
event_lines : List Text → Bool
event_lines [] = false
event_lines (line ∷ lines) = elim (loads line) [
  | none ↦ false
  | some ev ↦ elim (event_flag ev) [
    | none ↦ false
    | some (some true) ↦ true
    | _ ↦ event_lines lines
  ]
]

pub manifest_done : Text → Bool
manifest_done text = event_lines (splitlines text)
