-- ===== src/Compare/Agreement.antt =====
-- compare_audit.py looks a region up in a list, verify_a1_audit.py in a dictionary.
use atlasmirror.Prelude.{
  ℕ, zero, suc, ap, ◌≡◌, ◌≢◌, refl, ◌∙◌, sym, Text, text_eq, text_eq_iff, Option, none, some, List,
  [], ◌∷◌, All, Bool-cases, inl, inr,
}
use atlasmirror.Dict
use atlasmirror.Outcome.{Result, ok, err, ◌>>=◌}
use atlasmirror.Onchain.{
  Record, Records, Snapshot, read_u64, read_u32, read_record, read_records, fetch_onchain_records,
}
use atlasmirror.Compare.{find_record, list_records, read_registry}

-- No two records have the same region.
abbrev pub IsDistinct : List Record → Type 0
IsDistinct [] = Unit
IsDistinct (r ∷ rs) = All (λ q. q.region ≢ r.region) rs × IsDistinct rs

-- Records of other regions do not change what was found.
find_last-others :
    (name : Text) (r : Record) (rs : List Record) (found : Option Record)
    → r.region ≡ name
    → All (λ q. q.region ≢ r.region) rs
    → Dict.find_last (λ q. q.region) name rs found ≡ found
find_last-others name r [] found e h = refl
find_last-others name r (q ∷ rs) found e h = elim (Bool-cases (text_eq q.region name)) [
  | inl y ↦ absurd (h.0 ((text_eq_iff q.region name).0 y ∙ sym e))
  | inr n ↦ rw n (find_last-others name r rs found e h.1)
]

find_record-find_last :
    (name : Text) (rs : List Record)
    → IsDistinct rs
    → find_record name rs ≡ Dict.find_last (λ q. q.region) name rs none
unfolding find_record
find_record-find_last name [] h = refl
find_record-find_last name (r ∷ rs) h = elim (Bool-cases (text_eq r.region name)) [
  | inl y ↦ rw y (sym (find_last-others name r rs (some r) ((text_eq_iff r.region name).0 y) h.0))
  | inr n ↦ rw n (find_record-find_last name rs h.1)
]

find_record-index_by :
    (name : Text) (rs : List Record)
    → IsDistinct rs
    → find_record name rs ≡ Dict.get name (Dict.index_by (λ r. r.region) rs [])
unfolding Dict.get
find_record-index_by name rs h =
    find_record-find_last name rs h ∙ sym (Dict.get-index_by (λ r. r.region) name rs [])

-- The dictionary of the records that were read.
abbrev indexed : Records → List Record × List ℕ → Result (Records × List ℕ)
indexed d (rs, rest) = ok (Dict.index_by (λ r. r.region) rs d, rest)

-- the list's decoder after its first record
abbrev more : Record → List Record × List ℕ → Result (List Record × List ℕ)
more r (rs, rest) = ok (r ∷ rs, rest)

indexed-more :
    (d : Records) (r : Record) (found : Result (List Record × List ℕ))
    → (found >>= indexed (Dict.put r.region r d)) ≡ ((found >>= more r) >>= indexed d)
unfolding Dict.index_by
indexed-more d r (ok (rs, rest)) = refl
indexed-more d r (err e) = refl

-- Two chains of steps that agree after the first.
>>=-then :
    {A B C : Type 0} (m : Result A) (f : A → Result B) (g : B → Result C) (k : A → Result C)
    → ((a : A) → k a ≡ (f a >>= g))
    → (m >>= k) ≡ ((m >>= f) >>= g)
>>=-then (ok a) f g k h = h a
>>=-then (err e) f g k h = refl

-- The audit's decoder makes that dictionary, and it fails where the list's decoder does.
read_records-list_records :
    (n : ℕ) (d : Records) (bs : List ℕ) → read_records n d bs ≡ (list_records n bs >>= indexed d)
unfolding read_records list_records Dict.index_by
read_records-list_records zero d bs = refl
read_records-list_records (suc n) d bs = >>=-then (read_record bs) _ _ _ λ (r, rest).
    read_records-list_records n (Dict.put r.region r d) rest
    ∙ indexed-more d r (list_records n rest)

abbrev snapshot : ℕ × List Record → Result Snapshot
snapshot (t, rs) = ok (record { last_updated = t; records = Dict.index_by (λ r. r.region) rs [] })

snapshot-indexed :
    (t : ℕ) (found : Result (List Record × List ℕ))
    → ((found >>= indexed []) >>= λ (d, rest). ok (record { last_updated = t; records = d }))
      ≡ ((found >>= λ (rs, rest). ok (t, rs)) >>= snapshot)
snapshot-indexed t (ok (rs, rest)) = refl
snapshot-indexed t (err e) = refl

fetch_onchain_records-read_registry :
    (raw : List ℕ) → fetch_onchain_records raw ≡ (read_registry raw >>= snapshot)
unfolding fetch_onchain_records read_registry
fetch_onchain_records-read_registry raw = >>=-then (read_u64 raw) _ _ _ λ (total, a).
    >>=-then (read_u64 a) _ _ _ λ (t, b). >>=-then (read_u32 b) _ _ _ λ (n, c).
      ap (λ found. found >>= λ (d, rest). ok (record { last_updated = t; records = d }))
        (read_records-list_records n [] c)
      ∙ snapshot-indexed t (list_records n c)

-- Where compare_audit.py reads a registry whose records have distinct regions, the audit reads one from
-- the same bytes with the same time, and the first record of a region in the list of the one is the
-- record that the dictionary of the other has under it.
pub read_registry-fetch_onchain_records :
    (raw : List ℕ) (last_updated : ℕ) (rs : List Record)
    → read_registry raw ≡ ok (last_updated, rs)
    → IsDistinct rs
    → (s : Snapshot) × (fetch_onchain_records raw ≡ ok s)
      × (s.last_updated ≡ last_updated)
      × ((name : Text) → find_record name rs ≡ Dict.get name s.records)
read_registry-fetch_onchain_records raw last_updated rs e h = (
  record { last_updated = last_updated; records = Dict.index_by (λ r. r.region) rs [] },
  fetch_onchain_records-read_registry raw ∙ ap (λ found. found >>= snapshot) e,
  refl,
  λ name. find_record-index_by name rs h,
)
