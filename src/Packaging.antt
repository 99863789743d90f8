-- ===== src/Packaging.antt =====
-- scripts/package_app_lgx.py and scripts/package_sdk_lgx.py: what goes into a bundle, and its audit.
-- The file system and tarfile are not modelled: a project is what the scripts find in it, a bundle is
-- the names of its members, whose order is left open.
mod App
mod Sdk
mod Names
mod Shown
mod Audited
mod Examples
use atlasmirror.Prelude.{
  ℕ, Text, codes, text_eq, Bool, true, false, not, ◌&&◌, ◌||◌, if◌then◌else◌, Option, none, some,
  List, [], ◌∷◌, ◌++◌, length, drop, any, starts_with,
}
use atlasmirror.Strings.{includes}

mutual
  pub data Item : Type 0 where
    file : Text → Item
    dir : Text → Items → Item

  pub data Items : Type 0 where
    nil : Items
    cons : Item → Items → Items

-- A path under a build directory: its name, and whether it is a file.
pub record Found : Type 0 where
  pub name : Text
  pub is_file : Bool

-- `name` and `version` of metadata.json, the tree src/, and the paths under the build directories in
-- the order of the search; `none` is a directory that does not exist.
pub record Project : Type 0 where
  pub name : Option Text
  pub version : Option Text
  pub src : Items
  pub builds : List (Option (List Found))

pub record Bundle : Type 0 where
  pub lgx_filename : Text
  pub members : List Text

-- s.endswith(t)
unfoldable pub ends_with : Text → Text → Bool
ends_with [] t = text_eq [] t
ends_with (c ∷ s) t = text_eq (c ∷ s) t || ends_with s t

unfoldable pub or_default : Option Text → Text → Text
or_default none d = d
or_default (some t) d = t

-- shutil.ignore_patterns("*.o", "*.obj", ".DS_Store")
unfoldable pub is_ignored : Text → Bool
is_ignored name =
    ends_with name (codes ".o") || ends_with name (codes ".obj") || text_eq name (codes ".DS_Store")

-- shutil.copytree with that
unfoldable pub copy_tree : Items → Items
copy_tree nil = nil
copy_tree (cons (file name) items) =
    if is_ignored name then copy_tree items else cons (file name) (copy_tree items)
copy_tree (cons (dir name inside) items) =
    let copied = copy_tree inside in
    if is_ignored name then copy_tree items else cons (dir name copied) (copy_tree items)

-- the names of a tree's members under a path
unfoldable pub tree_names : Text → Items → List Text
tree_names path nil = []
tree_names path (cons (file name) items) = (path ++ (codes "/" ++ name)) ∷ tree_names path items
tree_names path (cons (dir name inside) items) =
    let here = path ++ (codes "/" ++ name) in
    (here ∷ tree_names here inside) ++ tree_names path items

-- the members of a directory of files
unfoldable pub dir_names : Text → List Text → List Text
dir_names path [] = []
dir_names path (name ∷ names) = (path ++ (codes "/" ++ name)) ∷ dir_names path names

-- A file that is copied again replaces the one of its name.
unfoldable pub put_name : Text → List Text → List Text
put_name name names = if any (text_eq name) names then names else name ∷ names

-- glob of "{prefix}*{rest}", where `rest` stands for one code point that comes after the prefix
unfoldable pub matches : Text → Text → Text → Bool
matches prefix rest name = starts_with name prefix && includes rest (drop (length prefix) name)
