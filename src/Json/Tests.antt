-- ===== src/Json/Tests.antt =====
-- Runs of the parser on inputs that Python evaluates alike.
use atlasmirror.Prelude.{◌≡◌, refl, [], ◌∷◌, codes, some, none, true, text_eq, starts_with}
use atlasmirror.Json.{nat, str, bool, obj, arr, nil, cons, end, field, loads, last_field, at}

manifests :
    loads
      (codes "{\"success\":true, \"result\": {\"value\":[{\"cid\":\"zD\",\"datasetSize\":49}]}}")
    ≡ some (
        obj (
          field (codes "success") (bool true) (
            field
              (codes "result")
              (obj (
                field
                  (codes "value")
                  (arr (
                    cons
                      (obj (
                        field
                          (codes "cid")
                          (str (codes "zD"))
                          (field (codes "datasetSize") (nat 49) end)))
                      nil))
                  end))
              end)))
unfolding loads codes starts_with
manifests = refl

escapes :
    loads (codes " \"a\\n\\u00e9\\ud83d\\ude00\" ") ≡ some (str (0x61 ∷ 0x0a ∷ 0xe9 ∷ 0x1f600 ∷ []))
unfolding loads codes starts_with
escapes = refl

numbers : loads (codes "[1.5e3, 07]") ≡ none
unfolding loads codes starts_with
numbers = refl

last_wins :
    at (codes "a") (obj (field (codes "a") (nat 1) (field (codes "a") (nat 2) end))) ≡ some (nat 2)
unfolding at last_field codes text_eq
last_wins = refl
