-- ===== src/Region/Distinct.antt =====
-- scripts/process_one_region.py: no region comes twice in the manifest.
use atlasmirror.Prelude.{
  ℕ, ◌+◌, ◌≤◌, Text, text_eq, text_eq_sound, Bool-cases, inl, inr, sym, Bool, ◌&&◌, false, ◌≡◌,
  refl, arith, List, [], ◌∷◌, ◌++◌,
}
use atlasmirror.Catalog.{CatalogEntry}
use atlasmirror.Manifest.{Entry, ManifestFile}
use atlasmirror.Manifest.Save.{count, is_kept, IsSaved}
use atlasmirror.Host.{Host, Request, Answer, History}
use atlasmirror.Host.Keeps.{is_save}
use atlasmirror.Region.Publish.{process_region}
use atlasmirror.Region.Updates.{
  manifest_after, IsFaithful, has_region, Update, Processed, returned, raised, stays, adds,
  after_quiet,
}
use atlasmirror.Region.Refines.{process_region-Processed}
use atlasmirror.Outcome.{Result}

-- how often the region comes
abbrev pub occurrences : Text → List Entry → ℕ
occurrences name es = count (λ e. text_eq e.region name) es

pub record IsDistinct (es : List Entry) : Type 0 where
  pub at : (name : Text) → occurrences name es ≤ 1

occurrences-append :
    (name : Text) (xs ys : List Entry)
    → occurrences name (xs ++ ys) ≡ occurrences name xs + occurrences name ys
occurrences-append name [] ys = omega arith
occurrences-append name (x ∷ xs) ys = omega (arith, occurrences-append name xs ys)

occurrences_new :
    (name : Text) (es : List Entry) → has_region name es ≡ false → occurrences name es ≡ 0
occurrences_new name [] e = refl
occurrences_new name (x ∷ xs) e = ground (arith, e, occurrences_new name xs)

count_both : (p q : Entry → Bool) (es : List Entry) → count (λ e. p e && q e) es ≤ count q es
count_both p q [] = omega arith
count_both p q (e ∷ es) = ground (arith, count_both p q es)

-- A manifest of these entries has no region more often than they do.
occurrences_saved :
    (name : Text) (es : List Entry) (m : ManifestFile)
    → IsSaved es m
    → occurrences name m.entries ≤ occurrences name es
occurrences_saved name es m saved = omega (
  arith,
  saved.kept (λ e. text_eq e.region name),
  count_both is_kept (λ e. text_eq e.region name) es,
)

-- An entry of a new region beside the others.
occurrences_added :
    (e : Entry) (es : List Entry)
    → IsDistinct es
    → has_region e.region es ≡ false
    → (name : Text) → occurrences name (es ++ (e ∷ [])) ≤ 1
occurrences_added e es d new name = elim (Bool-cases (text_eq e.region name)) [
  | inl y ↦
      let here = occurrences_new e.region es new in
      rw (sym (text_eq_sound e.region name y))
        (ground (arith, occurrences-append e.region es (e ∷ []), here))
  | inr n ↦ ground (arith, n, occurrences-append name es (e ∷ []), d.at name)
]

Processed-Update :
    (name : Text) (es es' : List Entry) (r : Result (Unit {0}))
    → Processed name es (r, es')
    → Update name es es'
Processed-Update name es es' r (returned m u listed) = u
Processed-Update name es es' r (raised e m u) = u

IsDistinct-Update :
    (name : Text) (es es' : List Entry) → Update name es es' → IsDistinct es → IsDistinct es'
IsDistinct-Update name es es' stays d = d
IsDistinct-Update name es es' (adds e m region new saved) d = record {
  at = λ n. omega (
    arith,
    occurrences_saved n (es ++ (e ∷ [])) m saved,
    occurrences_added e es d (rw region new) n,
  );
}

-- The histories of runs for any regions, with requests between them that do not save the manifest.
pub data IsReachable (host : Host) : History → Type 0 where
  start : IsReachable host []
  other :
      (r : Request) (a : Answer r) (h : History)
      → is_save r ≡ false
      → IsReachable host h
      → IsReachable host ((r, a) ∷ h)
  run :
      (catalog : List CatalogEntry) (name : Text) (h : History)
      → IsReachable host h
      → IsReachable host (process_region host catalog name h).1

-- In a world that reads back the manifest that was written last, after any sequence of runs of
-- process_region, whether they return or raise, no region comes twice in the manifest, if none did at
-- the beginning.
pub process_region-IsDistinct :
    (host : Host) (begin : List Entry) (h : History)
    → IsFaithful host begin
    → IsDistinct begin
    → IsReachable host h
    → IsDistinct (manifest_after begin h)
process_region-IsDistinct host begin h faithful d start = d
process_region-IsDistinct host begin h faithful d (other r a past e reached) =
    rw (after_quiet begin r (manifest_after begin past) e)
      (process_region-IsDistinct host begin past faithful d reached)
process_region-IsDistinct host begin h faithful d (run catalog name past reached) =
    IsDistinct-Update name _ _
      (Processed-Update name _ _ _ (process_region-Processed host begin catalog name past faithful))
      (process_region-IsDistinct host begin past faithful d reached)
