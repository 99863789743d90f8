-- ===== src/Packaging/App.antt =====
-- scripts/package_app_lgx.py
use atlasmirror.Prelude.{
  Text, codes, Bool, true, false, not, ◌&&◌, ◌||◌, if◌then◌else◌, Option, none, some, List, [], ◌∷◌,
  ◌++◌, any, text_eq,
}
use atlasmirror.Outcome.{Result, ok, err, Error, runtime_error}
use atlasmirror.Strings.{includes}
use atlasmirror.Packaging.{
  Found, Project, Bundle, ends_with, or_default, copy_tree, tree_names, dir_names, put_name,
  matches,
}

-- `lib_dir`, `bin_dir` and `native_found`
pub record Native : Type 0 where
  pub lib : List Text
  pub bin : List Text
  pub native_found : Bool

abbrev pub start : Native
start = record { lib = []; bin = []; native_found = false }

unfoldable pub is_lib : Found → Bool
is_lib f =
    matches (codes "libatlasmirror_app_") (codes ".") f.name
    && f.is_file
    && not (
        ends_with f.name (codes ".o")
        || ends_with f.name (codes ".obj")
        || ends_with f.name (codes ".a"))

unfoldable pub is_bin : Found → Bool
is_bin f =
    matches (codes "atlasmirror-app") [] f.name
    && f.is_file
    && not (
        ends_with f.name (codes ".cpp")
        || ends_with f.name (codes ".h")
        || ends_with f.name (codes ".o")
        || ends_with f.name (codes ".obj")
        || ends_with f.name (codes ".dir")
        || ends_with f.name (codes ".make")
        || ends_with f.name (codes ".cmake"))

unfoldable pub copy_libs : List Found → Native → Native
copy_libs [] n = n
copy_libs (f ∷ fs) n = copy_libs fs (
    if is_lib f
    then record { lib = put_name f.name n.lib; bin = n.bin; native_found = true }
    else n)

unfoldable pub copy_bins : List Found → Native → Native
copy_bins [] n = n
copy_bins (f ∷ fs) n = copy_bins fs (
    if is_bin f
    then record { lib = n.lib; bin = put_name f.name n.bin; native_found = true }
    else n)

unfoldable pub copy_native : List (Option (List Found)) → Native → Native
copy_native [] n = n
copy_native (none ∷ builds) n = copy_native builds n
copy_native (some found ∷ builds) n = copy_native builds (copy_bins found (copy_libs found n))

unfoldable pub app_members : Project → Native → List Text
app_members p n =
    (codes "bin" ∷ dir_names (codes "bin") n.bin)
    ++ ((codes "lib" ∷ dir_names (codes "lib") n.lib)
        ++ (codes "metadata.json" ∷ codes "src" ∷ tree_names (codes "src") (copy_tree p.src)))

unfoldable pub app_filename : Project → Text
app_filename p =
    or_default p.name (codes "atlasmirror_app")
    ++ (codes "-v" ++ (or_default p.version (codes "0.1.1") ++ codes ".lgx"))

-- the flags of the loop over the members
unfoldable pub has_metadata : List Text → Bool
has_metadata members = any (λ m. text_eq m (codes "metadata.json")) members

unfoldable pub has_native : List Text → Bool
has_native members =
    any (λ m. includes (codes "libatlasmirror_app_") m || includes (codes "atlasmirror-app") m)
      members

unfoldable pub has_qml : List Text → Bool
has_qml members = any (λ m. ends_with m (codes ".qml")) members

unfoldable pub audit_app : Bundle → Result (Unit {0})
audit_app b =
    if has_metadata b.members && has_native b.members && has_qml b.members
    then ok tt
    else err Error.assertion_error

-- The bundle that a run writes into dist/, if it gets there, and how the run ends. The audit comes
-- after the write, and a bundle that fails it stays.
unfoldable pub package_app : Project → Option Bundle × Result (Unit {0})
package_app p =
    let native = copy_native p.builds start in
    if not native.native_found
    then (none, err runtime_error)
    else (let b : Bundle = record {
      lgx_filename = app_filename p;
      members = app_members p native;
    } in
        (some b, audit_app b))
