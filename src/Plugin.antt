-- ===== src/Plugin.antt =====
-- plugin.go: what a plugin declares about itself, and sets of plugins. A plugin is its metadata here;
-- the handlers and clients that it makes are connectrpc's.
pub mod Sets
use connect_plugin_go.Prelude.{
  String, Bool, true, false, not, Option, none, some, List, [], ◌∷◌, ◌==◌, if◌then◌else◌,
}
use connect_plugin_go.Prelude.Maps.{Map, get, put}

pub record ServiceDeclaration : Type 0 where
  pub type : String
  pub version : String
  pub path : String

pub record ServiceDependency : Type 0 where
  pub type : String
  pub min_version : String
  pub required_for_startup : Bool
  pub watch_for_changes : Bool

pub record PluginMetadata : Type 0 where
  pub name : String
  pub path : String
  pub version : String
  pub provides : List ServiceDeclaration
  pub requires : List ServiceDependency

abbrev pub PluginSet : Type 0
PluginSet = Map PluginMetadata

pub data SetError : Type 0 where
  empty_plugin_set : SetError
  path_conflict : (name existing path : String) → SetError
  name_mismatch : (key name : String) → SetError

-- The loop of Validate; `paths` maps a path to the plugin that uses it.
validate_from : Map String → PluginSet → Option SetError
validate_from paths [] = none
validate_from paths ((name, metadata) ∷ ps) =
    let rest = validate_from (put paths metadata.path name) ps in
    elim (get paths metadata.path) [
      | some existing ↦ some (path_conflict name existing metadata.path)
      | none ↦ if not (metadata.name == name) then some (name_mismatch name metadata.name) else rest
    ]

-- PluginSet.Validate
unfoldable pub validate : PluginSet → Option SetError
unfolding validate_from
validate [] = some empty_plugin_set
validate (p ∷ ps) = validate_from [] (p ∷ ps)
