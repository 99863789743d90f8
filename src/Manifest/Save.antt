-- ===== src/Manifest/Save.antt =====
-- What `save_manifest_and_docs` keeps of the entries that it is given.
use atlasmirror.Prelude.{
  ℕ, ◌+◌, ◌≤◌, ◌≡◌, ◌↔◌, ◌&&◌, ◌∙◌, sym, refl, if◌then◌else◌, length-append, Text, Bool, true,
  false, not, ◌||◌, arith, codes, text_eq, text_eq_iff,
}
use atlasmirror.Prelude.{
  Option, none, some, List, [], ◌∷◌, ◌++◌, length, keep, keep-append, append-nil,
}
use atlasmirror.Manifest.{
  Entry, opt_text_eq, flag, is_counting, is_extra, count_countries, ManifestFile, save_manifest,
  verified,
}

opt_text_eq_ne :
    (o : Option Text) (s t : Text)
    → text_eq s t ≡ false
    → opt_text_eq o s ≡ true
    → opt_text_eq o t ≡ false
unfolding opt_text_eq
opt_text_eq_ne none s t d h = refl
opt_text_eq_ne (some r) s t d h = ground (arith, text_eq_iff r s)

labels_differ : text_eq (codes "NON_COUNTING_EXTRA") (codes "A1_VERIFIED") ≡ false
unfolding text_eq codes
labels_differ = refl

-- No entry is both.
pub disjoint : (e : Entry) → is_extra e ≡ true → is_counting e ≡ false
unfolding is_counting is_extra
disjoint e h = ground (arith, opt_text_eq_ne e.status _ _ labels_differ)

keep-keep : (p : Entry → Bool) (es : List Entry) → keep p (keep p es) ≡ keep p es
keep-keep p [] = refl
keep-keep p (e ∷ es) = ground (arith, keep-keep p es)

keep_none :
    (p q : Entry → Bool)
    → ((e : Entry) → q e ≡ true → p e ≡ false)
    → (es : List Entry) → keep p (keep q es) ≡ []
keep_none p q h [] = refl
keep_none p q h (e ∷ es) = ground (arith, keep_none p q h es, h e)

counting_extra : (e : Entry) → is_counting e ≡ true → is_extra e ≡ false
counting_extra e h = ground (arith, disjoint e)

-- Saving the entries that a save has written changes only the time in the file.
pub save_manifest-save_manifest :
    (now later : ℕ) (es : List Entry)
    → save_manifest later (save_manifest now es).entries
      ≡ record (save_manifest now es) { timestamp = later }
unfolding save_manifest
save_manifest-save_manifest now later es =
    rw (keep-append is_counting (keep is_counting es) (keep is_extra es)) (
      rw (keep-append is_extra (keep is_counting es) (keep is_extra es)) (
        rw
          (
            keep-keep is_counting es,
            keep-keep is_extra es,
            keep_none is_counting is_extra disjoint es,
            keep_none is_extra is_counting counting_extra es,
          )
          (rw append-nil refl)))

-- The entries that are in neither list of a save.
abbrev pub is_dropped : Entry → Bool
is_dropped e = not (is_counting e || is_extra e)

-- A save keeps an entry in one of its two lists or drops it: the two totals of the summary and
-- the number of dropped entries add up to the number of entries.
pub save_manifest_conserves :
    (now : ℕ) (es : List Entry)
    → (save_manifest now es).summary.total
        + (save_manifest now es).summary.extra
        + length (keep is_dropped es)
      ≡ length es
unfolding save_manifest
save_manifest_conserves now [] = omega arith
save_manifest_conserves now (e ∷ es) = ground (arith, save_manifest_conserves now es, disjoint e)

-- how many entries pass a test
abbrev pub count : (Entry → Bool) → List Entry → ℕ
count test [] = 0
count test (e ∷ es) = (if test e then 1 else 0) + count test es

-- An entry of the closed set, or with one of the two labels.
abbrev pub is_kept : Entry → Bool
is_kept e =
    flag e.in_closed_set
    || opt_text_eq e.status (codes "A1_VERIFIED")
    || opt_text_eq e.status (codes "NON_COUNTING_EXTRA")

-- What a file of these entries is to hold: each entry that is kept as often as it was, in any order,
-- and no other; the totals of its summary are theirs.
pub record IsSaved (es : List Entry) (m : ManifestFile) : Type 0 where
  pub kept : (test : Entry → Bool) → count test m.entries ≡ count (λ e. is_kept e && test e) es
  pub total : m.summary.total ≡ count is_counting es
  pub all : m.summary.total + m.summary.extra ≡ length m.entries
  pub status :
      (m.summary.status ≡ verified) ↔ ((25 ≤ count is_counting es) × (15 ≤ m.summary.represented))
  pub represented : m.summary.represented ≡ count_countries (keep is_counting es)

count-append :
    (test : Entry → Bool) (xs ys : List Entry)
    → count test (xs ++ ys) ≡ count test xs + count test ys
count-append test [] ys = omega arith
count-append test (x ∷ xs) ys = omega (arith, count-append test xs ys)

length-keep : (test : Entry → Bool) (es : List Entry) → length (keep test es) ≡ count test es
length-keep test [] = refl
length-keep test (e ∷ es) = ground (arith, length-keep test es)

is_kept_lem : (e : Entry) → is_kept e ≡ (is_counting e || is_extra e)
unfolding is_counting is_extra
is_kept_lem e = ground arith

count_kept :
    (test : Entry → Bool) (es : List Entry)
    → count test (keep is_counting es) + count test (keep is_extra es)
      ≡ count (λ e. is_kept e && test e) es
count_kept test [] = omega arith
count_kept test (e ∷ es) = ground (arith, count_kept test es, disjoint e, is_kept_lem e)

-- A save of these entries writes such a file: it holds each entry that is of the closed set or has one
-- of the two labels as often as it was, and no other; it counts those of the closed set or with the
-- first label, and its two totals are all that it holds; its status is A1_VERIFIED exactly at 25 or
-- more of these from 15 or more countries.
pub save_manifest-IsSaved : (now : ℕ) (es : List Entry) → IsSaved es (save_manifest now es)
unfolding save_manifest
save_manifest-IsSaved now es = record {
  kept = λ test. count-append test _ _ ∙ count_kept test es;
  total = length-keep is_counting es;
  all = sym (length-append (keep is_counting es) (keep is_extra es));
  status = ground (arith, length-keep is_counting es);
  represented = refl;
}
