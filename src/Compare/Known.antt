-- ===== src/Compare/Known.antt =====
-- scripts/compare_audit.py: the regions that it compares have entries in the manifest.
use atlasmirror.Prelude.{
  ℕ, zero, suc, ◌≡◌, ◌∙◌, refl, inl, inr, Bool-cases, Text, text_eq, text_eq_refl, none, some, List,
  [], ◌∷◌, All, map, take, keep,
}
use atlasmirror.Dict
use atlasmirror.Manifest.{Entry}
use atlasmirror.Compare.{in_closed_set, counting_25, manifest_map}

abbrev pub region_of : Entry → Text
region_of e = e.region

-- The name is the region of one of the entries.
abbrev IsKnown : List Entry → Text → Type 0
IsKnown es name = (e : Entry) × (Dict.find_last region_of name es none ≡ some e)

find_last-some :
    (name : Text) (es : List Entry) (e : Entry)
    → (last : Entry) × (Dict.find_last region_of name es (some e) ≡ some last)
find_last-some name [] e = (e, refl)
find_last-some name (d ∷ es) e = elim (Bool-cases (text_eq d.region name)) [
  | inl y ↦ rw y (find_last-some name es d)
  | inr n ↦ rw n (find_last-some name es e)
]

IsKnown-head : (e : Entry) (es : List Entry) → IsKnown (e ∷ es) e.region
IsKnown-head e es = rw (text_eq_refl e.region) (find_last-some e.region es e)

IsKnown-cons : (e : Entry) (es : List Entry) (name : Text) → IsKnown es name → IsKnown (e ∷ es) name
IsKnown-cons e es name known = elim (Bool-cases (text_eq e.region name)) [
  | inl y ↦ rw y (find_last-some name es e)
  | inr n ↦ rw n known
]

all_weaken :
    {P Q : Text → Type 0} (names : List Text)
    → ((name : Text) → P name → Q name)
    → All P names
    → All Q names
all_weaken [] w a = tt
all_weaken (name ∷ names) w (p, a) = (w name p, all_weaken names w a)

all_take : (P : Text → Type 0) (n : ℕ) (names : List Text) → All P names → All P (take n names)
all_take P zero names a = tt
all_take P (suc n) [] a = tt
all_take P (suc n) (name ∷ names) (p, a) = (p, all_take P n names a)

all-IsKnown : (es : List Entry) → All (IsKnown es) (map region_of es)
all-IsKnown [] = tt
all-IsKnown (e ∷ es) =
    (IsKnown-head e es, all_weaken (map region_of es) (IsKnown-cons e es) (all-IsKnown es))

-- Each region that is compared has an entry.
pub counting_25-IsKnown :
    (es : List Entry)
    → All (λ name. (e : Entry) × (Dict.get name (manifest_map es) ≡ some e)) (counting_25 es)
unfolding counting_25 manifest_map Dict.get
counting_25-IsKnown es =
    all_weaken _
      (λ name (e, found). (e, Dict.get-index_by region_of name (keep in_closed_set es) [] ∙ found))
      (all_take _ 25 _ (all-IsKnown (keep in_closed_set es)))
