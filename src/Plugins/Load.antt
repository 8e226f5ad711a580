-- ===== src/Plugins/Load.antt =====
-- src/lib.rs and src/main.rs: which plugins are loaded. The directory, and what a library's
-- constructor makes, are parameters.
use cryptix_miner_test.Base.{
  ◌&&◌, ◌++◌, Bool, List, Option, [], false, if◌then◌else◌, none, some, sym, ◌||◌, ℕ, ◌∙◌, ◌∷◌, ◌≡◌,
  refl,
}
use mathlib.Core.List.{append-nil, append_assoc}
use cryptix_miner_test.Base.Ascii.{eq_text, starts_with}
use cryptix_miner_test.Base.Text.{codes}

-- `WHITELIST`
abbrev pub whitelist : List (List ℕ)
whitelist =
    codes "libcryptixcuda"
    ∷ codes "cryptixcuda"
    ∷ codes "libcryptixopencl"
    ∷ codes "cryptixopencl"
    ∷ []

-- An entry of a directory: its path, whether it is a file, and the stem and the extension of its
-- name.
pub record DirEntry : Type 0 where
  pub path : List ℕ
  pub is_file : Bool
  pub file_stem : List ℕ
  pub extension : Option (List ℕ)

abbrev pub has_extension : List ℕ → Option (List ℕ) → Bool
has_extension dll_extension none = false
has_extension dll_extension (some e) = starts_with dll_extension e

abbrev pub any_is : List ℕ → List (List ℕ) → Bool
any_is stem [] = false
any_is stem (lib ∷ libs) = eq_text lib stem || any_is stem libs

unfoldable pub is_plugin : List ℕ → DirEntry → Bool
is_plugin dll_extension entry =
    entry.is_file && has_extension dll_extension entry.extension && any_is entry.file_stem whitelist

-- `filter_plugins`; a directory that cannot be read has none.
unfoldable pub filter_entries : List ℕ → List DirEntry → List (List ℕ)
unfolding is_plugin
filter_entries dll_extension [] = []
filter_entries dll_extension (entry ∷ entries) =
    let rest = filter_entries dll_extension entries in
    if is_plugin dll_extension entry then entry.path ∷ rest else rest

unfoldable pub filter_plugins : List ℕ → Option (List DirEntry) → List (List ℕ)
unfolding filter_entries
filter_plugins dll_extension none = []
filter_plugins dll_extension (some entries) = filter_entries dll_extension entries

-- `PluginManager`; a library is its path.
pub record PluginManager (Plugin : Type 0) : Type 0 where
  pub plugins : List Plugin
  pub loaded_libraries : List (List ℕ)

-- What `load_single_plugin` finds in a library: none that opens, one without a constructor, a
-- constructor that fails, or one that extends the app and makes a plugin.
pub data Library (App Plugin : Type 0) : Type 0 where
  cannot_open : Library App Plugin
  no_constructor : Library App Plugin
  fails : Library App Plugin
  creates : (App → App) → Plugin → Library App Plugin

-- The plugins with the one that a library makes, if any.
abbrev made : {App Plugin : Type 0} → Library App Plugin → List Plugin → List Plugin
made (creates augment plugin) rest = plugin ∷ rest
made other rest = rest

-- What `load_single_plugin` does with the library it finds.
unfoldable pub loaded :
    {App Plugin : Type 0}
    → PluginManager Plugin
    → App
    → List ℕ
    → Library App Plugin
    → PluginManager Plugin × App
loaded self app path cannot_open = (self, app)
loaded self app path no_constructor =
    (record self { loaded_libraries = self.loaded_libraries ++ (path ∷ []) }, app)
loaded self app path fails =
    (record self { loaded_libraries = self.loaded_libraries ++ (path ∷ []) }, app)
loaded self app path (creates augment plugin) = (
  record {
    plugins = self.plugins ++ (plugin ∷ []);
    loaded_libraries = self.loaded_libraries ++ (path ∷ []);
  },
  augment app,
)

module _ {App Plugin : Type 0} (library : List ℕ → Library App Plugin) where
  -- `load_single_plugin`: the manager and the app, which an error leaves as it was.
  unfoldable pub load_single_plugin :
      PluginManager Plugin → App → List ℕ → PluginManager Plugin × App
  unfolding loaded
  load_single_plugin self app path = loaded self app path (library path)

  -- The loop of `load_plugins`.
  unfoldable pub load_from : PluginManager Plugin → App → List (List ℕ) → PluginManager Plugin × App
  load_from factory app [] = (factory, app)
  load_from factory app (path ∷ paths) =
      let (factory', app') = load_single_plugin factory app path in load_from factory' app' paths

  -- `load_plugins`
  unfoldable pub load_plugins : App → List (List ℕ) → PluginManager Plugin × App
  unfolding load_from
  load_plugins app paths = load_from (record { plugins = []; loaded_libraries = [] }) app paths

  -- The plugins of the libraries that make one.
  unfoldable pub all_made : List (List ℕ) → List Plugin
  all_made [] = []
  all_made (path ∷ paths) = made (library path) (all_made paths)

  loaded-made :
      (self : PluginManager Plugin) (app : App) (path : List ℕ) (l : Library App Plugin)
      (rest : List Plugin)
      → (loaded self app path l).0.plugins ++ rest ≡ self.plugins ++ made l rest
  unfolding loaded
  loaded-made self app path cannot_open rest = refl
  loaded-made self app path no_constructor rest = refl
  loaded-made self app path fails rest = refl
  loaded-made self app path (creates augment plugin) rest =
      append_assoc self.plugins (plugin ∷ []) rest

  load_from-all_made :
      (factory : PluginManager Plugin) (app : App) (paths : List (List ℕ))
      → (load_from factory app paths).0.plugins ≡ factory.plugins ++ all_made paths
  unfolding load_from all_made load_single_plugin
  load_from-all_made factory app [] = sym (append-nil factory.plugins)
  load_from-all_made factory app (path ∷ paths) =
      load_from-all_made (load_single_plugin factory app path).0
        (load_single_plugin factory app path).1 paths
      ∙ loaded-made factory app path (library path) (all_made paths)

  -- A plugin that cannot be loaded does not lose the others: the manager holds the plugins of the
  -- libraries that make one, in the order of the paths.
  pub load_plugins-all_made :
      (app : App) (paths : List (List ℕ)) → (load_plugins app paths).0.plugins ≡ all_made paths
  unfolding load_plugins
  load_plugins-all_made app paths = load_from-all_made _ app paths
