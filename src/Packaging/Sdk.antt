-- ===== src/Packaging/Sdk.antt =====
-- scripts/package_sdk_lgx.py
use atlasmirror.Prelude.{
  Text, codes, text_eq, Bool, not, ◌&&◌, ◌||◌, if◌then◌else◌, Option, none, some, List, [], ◌∷◌,
  ◌++◌, any,
}
use atlasmirror.Outcome.{Result, ok, err, Error}
use atlasmirror.Packaging.{
  Found, Project, Bundle, ends_with, or_default, copy_tree, tree_names, dir_names, put_name,
  matches,
}

unfoldable pub is_plugin : Found → Bool
is_plugin f =
    matches (codes "libatlasmirror_sdk_plugin.") [] f.name
    && f.is_file
    && not (
        ends_with f.name (codes ".o")
        || ends_with f.name (codes ".obj")
        || ends_with f.name (codes ".a"))

-- `lib_dir`; `native_found` is not read after the loop
unfoldable pub copy_plugins : List Found → List Text → List Text
copy_plugins [] lib = lib
copy_plugins (f ∷ fs) lib = copy_plugins fs (if is_plugin f then put_name f.name lib else lib)

unfoldable pub copy_builds : List (Option (List Found)) → List Text → List Text
copy_builds [] lib = lib
copy_builds (none ∷ builds) lib = copy_builds builds lib
copy_builds (some found ∷ builds) lib = copy_builds builds (copy_plugins found lib)

unfoldable pub sdk_members : Project → List Text → List Text
sdk_members p lib =
    (codes "lib" ∷ dir_names (codes "lib") lib)
    ++ (codes "metadata.json" ∷ codes "src" ∷ tree_names (codes "src") (copy_tree p.src))

unfoldable pub sdk_filename : Project → Text
sdk_filename p =
    or_default p.name (codes "atlasmirror_sdk")
    ++ (codes "-v" ++ (or_default p.version (codes "0.1.1") ++ codes ".lgx"))

-- Whether the plugin is there is printed only.
unfoldable pub verify_sdk : Bundle → Result (Unit {0})
verify_sdk b =
    if any (λ m. text_eq m (codes "metadata.json")) b.members then ok tt else err (Error.exit 1)

-- The bundle that a run writes into dist/, and how the run ends.
unfoldable pub package_sdk : Project → Bundle × Result (Unit {0})
package_sdk p =
    let b : Bundle = record {
      lgx_filename = sdk_filename p;
      members = sdk_members p (copy_builds p.builds []);
    } in
    (b, verify_sdk b)
