-- ===== src/Coverage/Assertions.antt =====
-- scripts/run_a1_coverage.py: the final assertions, and what they say of the manifest.
use atlasmirror.Prelude.{
  ℕ, suc, ◌≤◌, ◌≡◌, inl, inr, arith, Text, codes, text_eq, text_eq_sound, Bool, true, ◌&&◌, Option,
  none, some, List, [], ◌∷◌, length, All, ◌∙◌, leb, ◌==◌, if◌then◌else◌, Bool-cases, ap,
}
use atlasmirror.Outcome.{Result, ok, err, key_error, ◌>>=◌, >>=-ok}
use atlasmirror.Manifest.{Entry, Retrieval, count_countries}

-- d[k] of a key that may be missing
unfoldable pub or_key_error : {A : Type 0} → Option A → Result A
or_key_error none = err key_error
or_key_error (some a) = ok a

-- sum(1 for e in es if test(e)), where the test reads e["external_retrieval"][k]
unfoldable pub count_by : (Retrieval → Option Text) → (Entry → Text) → List Entry → Result ℕ
count_by key expected [] = ok 0
count_by key expected (e ∷ es) = do
  r ← or_key_error e.external_retrieval
  found ← or_key_error (key r)
  n ← count_by key expected es
  ok (if text_eq found (expected e) then suc n else n)

unfoldable pub retrievable_count : List Entry → Result ℕ
retrievable_count = count_by (λ r. r.status) (λ e. codes "VERIFIED_EXACT_MATCH")

unfoldable pub md5_match_count : List Entry → Result ℕ
md5_match_count = count_by (λ r. r.retrieved_md5) (λ e. e.geofabrik_md5)

-- the four final assertions
unfoldable pub final_assertions : List Entry → ℕ → ℕ → Bool
final_assertions es retrievable matching =
    leb 25 (length es)
    && leb 15 (count_countries es)
    && retrievable == length es
    && matching == length es

-- The entry's retrieval has this text under a key.
abbrev pub HasText : (Retrieval → Option Text) → (Entry → Text) → Entry → Type 0
HasText key expected e =
    (r : Retrieval) × (e.external_retrieval ≡ some r) × (key r ≡ some (expected e))

or_key_error-ok : {A : Type 0} (o : Option A) {a : A} → or_key_error o ≡ ok a → o ≡ some a
unfolding or_key_error
or_key_error-ok none h = cc
or_key_error-ok (some b) h = cc

module _ (key : Retrieval → Option Text) (expected : Entry → Text) where
  -- One step of the sum, with what it reads.
  count_by-cons :
      (e : Entry) (es : List Entry) (n : ℕ)
      → count_by key expected (e ∷ es) ≡ ok n
      → (r : Retrieval) × (found : Text) × (m : ℕ) × (e.external_retrieval ≡ some r)
        × (key r ≡ some found)
        × (count_by key expected es ≡ ok m)
        × (n ≡ (if text_eq found (expected e) then suc m else m))
  unfolding count_by
  count_by-cons e es n h =
      let (r, a, h1) = >>=-ok (or_key_error e.external_retrieval) _ h in
      let (found, b, h2) = >>=-ok (or_key_error (key r)) _ h1 in
      let (m, c, h3) = >>=-ok (count_by key expected es) _ h2 in
      (r, found, m, or_key_error-ok e.external_retrieval a, or_key_error-ok (key r) b, c, cc)

  count_by_bound : (es : List Entry) (n : ℕ) → count_by key expected es ≡ ok n → n ≤ length es
  unfolding count_by
  count_by_bound [] n h = ground arith
  count_by_bound (e ∷ es) n h =
      let (r, found, m, there, read, rest, total) = count_by-cons e es n h in
      ground (arith, count_by_bound es m rest, total)

  count_by_all :
      (es : List Entry) → count_by key expected es ≡ ok (length es) → All (HasText key expected) es
  unfolding count_by
  count_by_all [] h = tt
  count_by_all (e ∷ es) h =
      let (r, found, m, there, read, rest, total) = count_by-cons e es _ h in
      elim (Bool-cases (text_eq found (expected e))) [
        | inr n ↦ absurd (ground (arith, n, total, count_by_bound es m rest))
        | inl y ↦ (
          (r, there, rw (text_eq_sound found (expected e) y) at read),
          count_by_all es (rest ∙ ap ok (ground (arith, y, total))),
        )
      ]

-- What a run that ends without an error has shown of the entries.
pub record IsCovered (es : List Entry) : Type 0 where
  pub entries : 25 ≤ length es
  pub countries : 15 ≤ count_countries es
  pub retrieved : All (HasText (λ r. r.status) (λ e. codes "VERIFIED_EXACT_MATCH")) es
  pub matched : All (HasText (λ r. r.retrieved_md5) (λ e. e.geofabrik_md5)) es

pub final_assertions-IsCovered :
    (es : List Entry) (n m : ℕ)
    → retrievable_count es ≡ ok n
    → md5_match_count es ≡ ok m
    → final_assertions es n m ≡ true
    → IsCovered es
unfolding final_assertions retrievable_count md5_match_count
final_assertions-IsCovered es n m counted matched h = record {
  entries = ground (arith, h);
  countries = ground (arith, h);
  retrieved = count_by_all _ _ es (counted ∙ ap ok (ground (arith, h)));
  matched = count_by_all _ _ es (matched ∙ ap ok (ground (arith, h)));
}
