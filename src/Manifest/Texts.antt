-- ===== src/Manifest/Texts.antt =====
-- Sets of texts as lists without repetition.
use atlasmirror.Prelude.{◌||◌, Text, Bool, false, List, [], ◌∷◌, ◌++◌, text_eq, if◌then◌else◌}

-- k in ks
unfoldable pub contains : Text → List Text → Bool
contains k [] = false
contains k (j ∷ ks) = text_eq j k || contains k ks

-- ks.add(k)
unfoldable pub add : Text → List Text → List Text
add k ks = if contains k ks then ks else ks ++ (k ∷ [])

unfoldable pub distinct_onto : List Text → List Text → List Text
distinct_onto [] seen = seen
distinct_onto (k ∷ ks) seen = distinct_onto ks (add k seen)

-- set(ks)
unfoldable pub distinct : List Text → List Text
distinct ks = distinct_onto ks []
