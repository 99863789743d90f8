-- ===== src/Packaging/Audited.antt =====
-- scripts/package_app_lgx.py and scripts/package_sdk_lgx.py: when packaging succeeds.
use atlasmirror.Prelude.{
  Text, codes, text_eq, text_eq_refl, true, false, if◌then◌else◌, ◌≡◌, refl, arith, Bool-cases, inl,
  inr, Option, none, some, List, [], ◌∷◌, any,
}
use atlasmirror.Outcome.{ok, err, Error, runtime_error}
use atlasmirror.Packaging.{Bundle}
use atlasmirror.Packaging.{Found, Project, dir_names}
use atlasmirror.Packaging.App.{
  start, copy_native, app_members, app_filename, has_metadata, has_qml, audit_app, package_app,
}
use atlasmirror.Packaging.Names.{any-append}
use atlasmirror.Packaging.Shown.{
  has_build, is_native, copy_native-IsShown, has_native-app_members, has_metadata-app_members,
}
use atlasmirror.Packaging.Sdk.{
  is_plugin, copy_plugins, copy_builds, sdk_members, sdk_filename, verify_sdk, package_sdk,
}

-- The bundle that package_app packs where there is a native file.
abbrev pub app_bundle : Project → Bundle
app_bundle p = record {
  lgx_filename = app_filename p;
  members = app_members p (copy_native p.builds start);
}

-- What a run of package_app leaves in dist/ and how it ends: if no build directory has a native file, it
-- writes no bundle and ends with a RuntimeError. Otherwise it writes the bundle, and returns if a
-- member's name ends in .qml; if not, it ends with an AssertionError, and the bundle stays. The
-- audit's other two assertions never fail.
pub package_app_lem :
    (p : Project)
    → package_app p ≡ (
        if any (has_build is_native) p.builds
        then (
          some (app_bundle p),
          if has_qml (app_bundle p).members then ok tt else err Error.assertion_error,
        )
        else (none, err runtime_error))
unfolding package_app audit_app has_metadata has_qml app_members
package_app_lem p =
    let n = copy_native p.builds start in
    let (shown, found) = copy_native-IsShown p.builds start (record { at = λ e. cc }) in
    elim (Bool-cases (any (has_build is_native) p.builds)) [
      | inl y ↦
          let there : n.native_found ≡ true = ground (arith, found, y) in
          rw (y, there, has_metadata-app_members p n, has_native-app_members p n shown there) refl
      | inr k ↦
          let none_there : n.native_found ≡ false = ground (arith, found, k) in
          rw (k, none_there) refl
    ]

copy_plugins_none :
    (fs : List Found) (lib : List Text) → any is_plugin fs ≡ false → copy_plugins fs lib ≡ lib
unfolding copy_plugins
copy_plugins_none [] lib e = refl
copy_plugins_none (f ∷ fs) lib e = elim (Bool-cases (is_plugin f)) [
  | inl y ↦ absurd (ground (arith, e, y))
  | inr k ↦ rw k (copy_plugins_none fs lib (ground (arith, e, k)))
]

copy_builds_none :
    (builds : List (Option (List Found))) (lib : List Text)
    → any (has_build is_plugin) builds ≡ false
    → copy_builds builds lib ≡ lib
unfolding copy_builds
copy_builds_none [] lib e = refl
copy_builds_none (none ∷ builds) lib e = copy_builds_none builds lib e
copy_builds_none (some fs ∷ builds) lib e =
    rw (copy_plugins_none fs lib (ground (arith, e)))
      (copy_builds_none builds lib (ground (arith, e)))

has_metadata-sdk_members :
    (p : Project) (lib : List Text)
    → any (λ m. text_eq m (codes "metadata.json")) (sdk_members p lib) ≡ true
unfolding sdk_members
has_metadata-sdk_members p lib =
    let is_meta = λ (m : Text). text_eq m (codes "metadata.json") in
    rw (any-append is_meta (codes "lib" ∷ dir_names (codes "lib") lib) _)
      (ground (arith, text_eq_refl (codes "metadata.json")))

-- Where no build directory has the plugin, package_sdk writes a bundle all the same, with an empty lib/,
-- and returns.
pub package_sdk_without_plugin :
    (p : Project)
    → any (has_build is_plugin) p.builds ≡ false
    → package_sdk p ≡ (record { lgx_filename = sdk_filename p; members = sdk_members p [] }, ok tt)
unfolding package_sdk verify_sdk
package_sdk_without_plugin p e =
    rw (copy_builds_none p.builds [] e) (rw (has_metadata-sdk_members p []) refl)
