-- ===== src/Packaging/Shown.antt =====
-- scripts/package_app_lgx.py: a native file that is found shows in the archive.
use atlasmirror.Prelude.{
  Text, codes, text_eq, text_eq_refl, Bool, true, false, ◌||◌, ◌≡◌, refl, arith, Bool-cases, inl,
  inr, Option, none, some, List, [], ◌∷◌, any,
}
use atlasmirror.Strings.{includes}
use atlasmirror.Packaging.{Found, Project, dir_names, put_name, matches}
use atlasmirror.Packaging.App.{
  Native, is_lib, is_bin, copy_libs, copy_bins, copy_native, app_members, has_metadata, has_native,
}
use atlasmirror.Packaging.Names.{
  any-append, includes-starts_with, any-put_name, any-dir_names, any_weaken,
}

-- The build directory has a native file for the bundle.
abbrev pub has_build : (Found → Bool) → Option (List Found) → Bool
has_build test none = false
has_build test (some found) = any test found

-- A native file that was found shows in the names that were copied.
pub record IsShown (n : Native) : Type 0 where
  pub at :
      n.native_found ≡ true
      → (any (includes (codes "libatlasmirror_app_")) n.lib
          || any (includes (codes "atlasmirror-app")) n.bin)
        ≡ true

is_lib-includes :
    (f : Found) → is_lib f ≡ true → includes (codes "libatlasmirror_app_") f.name ≡ true
unfolding is_lib matches
is_lib-includes f e = includes-starts_with _ f.name (ground (arith, e))

is_bin-includes : (f : Found) → is_bin f ≡ true → includes (codes "atlasmirror-app") f.name ≡ true
unfolding is_bin matches
is_bin-includes f e = includes-starts_with _ f.name (ground (arith, e))

copy_libs-IsShown :
    (fs : List Found) (n : Native)
    → IsShown n
    → IsShown (copy_libs fs n) × ((copy_libs fs n).native_found ≡ (n.native_found || any is_lib fs))
unfolding copy_libs
copy_libs-IsShown [] n s = (s, ground arith)
copy_libs-IsShown (f ∷ fs) n s = elim (Bool-cases (is_lib f)) [
  | inl y ↦
      let put =
        any-put_name (includes (codes "libatlasmirror_app_")) f.name n.lib (is_lib-includes f y) in
      rw y (
        let (shown, found) =
          copy_libs-IsShown fs
            (record { lib = put_name f.name n.lib; bin = n.bin; native_found = true })
            (record { at = λ e. ground (arith, put) }) in
        (shown, ground (arith, found, y)))
  | inr k ↦
      rw k (let (shown, found) = copy_libs-IsShown fs n s in (shown, ground (arith, found, k)))
]

copy_bins-IsShown :
    (fs : List Found) (n : Native)
    → IsShown n
    → IsShown (copy_bins fs n) × ((copy_bins fs n).native_found ≡ (n.native_found || any is_bin fs))
unfolding copy_bins
copy_bins-IsShown [] n s = (s, ground arith)
copy_bins-IsShown (f ∷ fs) n s = elim (Bool-cases (is_bin f)) [
  | inl y ↦
      let put =
        any-put_name (includes (codes "atlasmirror-app")) f.name n.bin (is_bin-includes f y) in
      rw y (
        let (shown, found) =
          copy_bins-IsShown fs
            (record { lib = n.lib; bin = put_name f.name n.bin; native_found = true })
            (record { at = λ e. ground (arith, put) }) in
        (shown, ground (arith, found, y)))
  | inr k ↦
      rw k (let (shown, found) = copy_bins-IsShown fs n s in (shown, ground (arith, found, k)))
]

-- A file that belongs into lib/ or bin/.
abbrev pub is_native : Found → Bool
is_native f = is_lib f || is_bin f

any-or :
    (test other : Found → Bool) (fs : List Found)
    → any (λ f. test f || other f) fs ≡ (any test fs || any other fs)
any-or test other [] = refl
any-or test other (f ∷ fs) = ground (arith, any-or test other fs)

pub copy_native-IsShown :
    (builds : List (Option (List Found))) (n : Native)
    → IsShown n
    → IsShown (copy_native builds n)
      × ((copy_native builds n).native_found ≡ (n.native_found || any (has_build is_native) builds))
unfolding copy_native
copy_native-IsShown [] n s = (s, ground arith)
copy_native-IsShown (none ∷ builds) n s =
    let (shown, found) = copy_native-IsShown builds n s in (shown, ground (arith, found))
copy_native-IsShown (some fs ∷ builds) n s =
    let (libs, any_lib) = copy_libs-IsShown fs n s in
    let (bins, any_bin) = copy_bins-IsShown fs (copy_libs fs n) libs in
    let (shown, found) = copy_native-IsShown builds _ bins in
    (shown, ground (arith, found, any_bin, any_lib, any-or is_lib is_bin fs))

shows : Text → Bool
shows m = includes (codes "libatlasmirror_app_") m || includes (codes "atlasmirror-app") m

lib_shows :
    (names : List Text)
    → any (includes (codes "libatlasmirror_app_")) names ≡ true
    → any shows (dir_names (codes "lib") names) ≡ true
unfolding shows
lib_shows names e =
    any_weaken _ shows _ (λ x p. ground (arith, p)) (any-dir_names _ (codes "lib") names e)

bin_shows :
    (names : List Text)
    → any (includes (codes "atlasmirror-app")) names ≡ true
    → any shows (dir_names (codes "bin") names) ≡ true
unfolding shows
bin_shows names e =
    any_weaken _ shows _ (λ x p. ground (arith, p)) (any-dir_names _ (codes "bin") names e)

pub has_native-app_members :
    (p : Project) (n : Native)
    → IsShown n
    → n.native_found ≡ true
    → has_native (app_members p n) ≡ true
unfolding has_native app_members shows
has_native-app_members p n s e =
    rw (any-append shows (codes "bin" ∷ dir_names (codes "bin") n.bin) _) (
      rw (any-append shows (codes "lib" ∷ dir_names (codes "lib") n.lib) _)
        (ground (arith, s.at e, lib_shows n.lib, bin_shows n.bin)))

pub has_metadata-app_members : (p : Project) (n : Native) → has_metadata (app_members p n) ≡ true
unfolding has_metadata app_members
has_metadata-app_members p n =
    let is_meta = λ (m : Text). text_eq m (codes "metadata.json") in
    rw (any-append is_meta (codes "bin" ∷ dir_names (codes "bin") n.bin) _) (
      rw (any-append is_meta (codes "lib" ∷ dir_names (codes "lib") n.lib) _)
        (ground (arith, text_eq_refl (codes "metadata.json"))))
