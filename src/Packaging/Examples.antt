-- ===== src/Packaging/Examples.antt =====
-- Runs of scripts/package_app_lgx.py and scripts/package_sdk_lgx.py.
use atlasmirror.Prelude.{codes, true, none, some, List, [], ◌∷◌, ◌≡◌, refl, starts_with, text_eq}
use atlasmirror.Strings.{includes}
use atlasmirror.Outcome.{ok, err, Error, runtime_error}
use atlasmirror.Packaging.{
  Items, file, dir, nil, cons, Found, Project, matches, ends_with, dir_names, put_name, copy_tree,
  is_ignored, tree_names, or_default,
}
use atlasmirror.Packaging.App.{
  is_lib, is_bin, copy_libs, copy_bins, copy_native, app_members, app_filename, has_metadata,
  has_native, has_qml, audit_app, package_app,
}
use atlasmirror.Packaging.Sdk.{is_plugin, sdk_members, sdk_filename, package_sdk}
use atlasmirror.Packaging.Audited.{app_bundle, package_app_lem, package_sdk_without_plugin}

abbrev sources : Items
sources =
    cons (dir (codes "qml") (cons (file (codes "Main.qml")) nil))
      (cons (file (codes "plugin.o")) nil)

abbrev built : List Found
built =
    record { name = codes "atlasmirror-app.o"; is_file = true }
    ∷ record { name = codes "atlasmirror-app"; is_file = true }
    ∷ []

abbrev project : Project
project = record {
  name = some (codes "atlasmirror");
  version = none;
  src = sources;
  builds = none ∷ some built ∷ [];
}

package_app_run : package_app project ≡ (
  some (record {
    lgx_filename = codes "atlasmirror-v0.1.1.lgx";
    members =
        codes "bin"
        ∷ codes "bin/atlasmirror-app"
        ∷ codes "lib"
        ∷ codes "metadata.json"
        ∷ codes "src"
        ∷ codes "src/qml"
        ∷ codes "src/qml/Main.qml"
        ∷ [];
  }),
  ok tt,
)
unfolding package_app audit_app copy_native copy_libs copy_bins is_lib is_bin matches starts_with
    codes includes ends_with text_eq has_metadata has_native has_qml app_members app_filename
    dir_names put_name copy_tree is_ignored tree_names or_default
package_app_run = refl

-- without a build directory
package_app_unbuilt :
    package_app (record project { builds = none ∷ [] }) ≡ (none, err runtime_error)
unfolding package_app copy_native
package_app_unbuilt = refl

-- the same without a view: the bundle stays
abbrev viewless : Project
viewless = record project { src = nil }

package_app_lem_example :
    package_app viewless ≡ (some (app_bundle viewless), err Error.assertion_error)
unfolding is_lib is_bin matches starts_with includes ends_with text_eq codes has_qml app_members
    dir_names copy_native copy_bins copy_libs put_name tree_names copy_tree is_ignored
package_app_lem_example = package_app_lem viewless

package_sdk_without_plugin_example :
    package_sdk project
    ≡ (record { lgx_filename = sdk_filename project; members = sdk_members project [] }, ok tt)
unfolding is_plugin matches starts_with includes ends_with text_eq codes
package_sdk_without_plugin_example = package_sdk_without_plugin project refl
