-- ===== src/Region/Updates.antt =====
-- scripts/process_one_region.py: the manifest as a state, and what a run may do to it.
use atlasmirror.Prelude.{
  ℕ, Text, text_eq, Bool, true, false, ◌≡◌, refl, arith, some, List, [], ◌∷◌, ◌++◌, any,
}
use atlasmirror.Prelude.{keep, keep-append, ◌||◌, text_eq_refl}
use atlasmirror.Outcome.{Error, Result, ok, err}
use atlasmirror.Manifest.{Entry, ManifestFile, is_counting, is_extra, save_manifest}
use atlasmirror.Manifest.Save.{IsSaved}
use atlasmirror.Host.{Host, Request, History, read_manifest, write_manifest}
use atlasmirror.Host.Keeps.{is_save, publishes, IsQuiet}

-- The manifest's entries after a request.
abbrev pub after_request : Request → List Entry → List Entry
after_request (write_manifest m) es = m.entries
after_request r es = es

-- The manifest's entries at the end of a history that began with `start`.
abbrev pub manifest_after : List Entry → History → List Entry
manifest_after start [] = start
manifest_after start ((r, a) ∷ h) = after_request r (manifest_after start h)

-- A read of the manifest gives what was written last.
pub record IsFaithful (host : Host) (start : List Entry) : Type 0 where
  pub at : (h : History) → host.answer read_manifest h ≡ some (manifest_after start h)

abbrev pub has_region : Text → List Entry → Bool
has_region name es = any (λ e. text_eq e.region name) es

-- What a run for a region may do to the manifest: nothing, or one new entry and a save.
pub data Update (name : Text) (es : List Entry) : List Entry → Type 0 where
  stays : Update name es es
  adds :
      (e : Entry) (m : ManifestFile)
      → e.region ≡ name
      → has_region name es ≡ false
      → IsSaved (es ++ (e ∷ [])) m
      → Update name es m.entries

-- The same, by how the run ends: after a return the region is there.
pub data Processed (name : Text) (es : List Entry) : Result (Unit {0}) × List Entry → Type 0 where
  returned :
      (es' : List Entry)
      → Update name es es'
      → has_region name es' ≡ true
      → Processed name es (ok tt, es')
  raised : (e : Error) (es' : List Entry) → Update name es es' → Processed name es (err e, es')

has_region-append :
    (name : Text) (xs ys : List Entry)
    → has_region name (xs ++ ys) ≡ (has_region name xs || has_region name ys)
has_region-append name [] ys = refl
has_region-append name (x ∷ xs) ys = ground (arith, has_region-append name xs ys)

or_true : (a b : Bool) → b ≡ true → (a || b) ≡ true
or_true a b e = ground (arith, e)

-- A save keeps the region of a counting entry at the end.
pub has_region-save_manifest :
    (now : ℕ) (e : Entry) (es : List Entry)
    → is_counting e ≡ true
    → has_region e.region (save_manifest now (es ++ (e ∷ []))).entries ≡ true
unfolding save_manifest
has_region-save_manifest now e es c =
    let here = text_eq_refl e.region in
    let kept = keep-append is_counting es (e ∷ []) in
    rw
      (has_region-append e.region (keep is_counting (es ++ (e ∷ [])))
        (keep is_extra (es ++ (e ∷ []))))
      (rw kept (
        rw (has_region-append e.region (keep is_counting es) (keep is_counting (e ∷ [])))
          (ground (arith, c, here))))

module _ (start : List Entry) where
  pub after_quiet : (r : Request) (es : List Entry) → is_save r ≡ false → after_request r es ≡ es
  after_quiet r es e = ground (arith, e)

  pub quiet_save : (r : Request) → publishes r ≡ false → is_save r ≡ false
  quiet_save r e = ground (arith, e)

  -- What is said of the manifest's entries is quiet.
  pub manifest-IsQuiet : (Q : List Entry → Type 0) → IsQuiet (λ h. Q (manifest_after start h))
  manifest-IsQuiet Q = record {
    at = λ r a h e q. rw (after_quiet r (manifest_after start h) (quiet_save r e)) q;
  }
