-- ===== src/Server.antt =====
-- server.go: the checks of ServeConfig and the defaults that Serve applies before them. A nil map is
-- `none`; the implementations are of any type.
pub mod Accepts
use connect_plugin_go.Prelude.{
  ℕ, String, Bool, true, false, Option, none, some, List, [], ◌∷◌, ◌==◌, if◌then◌else◌,
}
use connect_plugin_go.Prelude.Int.{ℤ, pos, negsuc, is_zero}
use connect_plugin_go.Prelude.Maps.{Map, get, keys}
use connect_plugin_go.Plugin.{PluginSet, SetError}
use connect_plugin_go.Plugin

-- The fields of ServeConfig that Validate and the defaults of Serve read
pub record ServeConfig (Impl : Type 0) : Type 0 where
  pub plugins : Option PluginSet
  pub impls : Option (Map Impl)
  pub addr : String
  pub graceful_shutdown_timeout : ℤ
  pub protocol_version : ℤ

pub data ConfigError : Type 0 where
  plugins_not_set impls_not_set negative_version : ConfigError
  no_implementation no_definition : String → ConfigError
  invalid_plugins : SetError → ConfigError

module _ {ℓ} {V : Type ℓ} where
  -- The first of the names that the map lacks
  unfoldable pub first_missing : List String → Map V → Option String
  first_missing [] m = none
  first_missing (name ∷ names) m = elim (get m name) [
    | none ↦ some name
    | some v ↦ first_missing names m
  ]

abbrev pub is_negative : ℤ → Bool
is_negative (pos n) = false
is_negative (negsuc n) = true

plugins_error : Option SetError → ℤ → Option ConfigError
plugins_error (some e) version = some (invalid_plugins e)
plugins_error none version = if is_negative version then some negative_version else none

definitions_error : Option String → PluginSet → ℤ → Option ConfigError
definitions_error (some name) plugins version = some (no_definition name)
definitions_error none plugins version = plugins_error (Plugin.validate plugins) version

module _ {Impl : Type 0} where
  maps_error : PluginSet → Map Impl → ℤ → Option ConfigError
  maps_error plugins impls version = elim (first_missing (keys plugins) impls) [
    | some name ↦ some (no_implementation name)
    | none ↦ definitions_error (first_missing (keys impls) plugins) plugins version
  ]

  -- ServeConfig.Validate
  unfoldable pub validate : ServeConfig Impl → Option ConfigError
  unfolding maps_error definitions_error plugins_error
  validate cfg = elim cfg.plugins [
    | none ↦ some plugins_not_set
    | some plugins ↦ elim cfg.impls [
      | none ↦ some impls_not_set
      | some impls ↦ maps_error plugins impls cfg.protocol_version
    ]
  ]

  -- The defaults of Serve; the timeout is in nanoseconds.
  unfoldable pub with_defaults : ServeConfig Impl → ServeConfig Impl
  with_defaults cfg = record cfg {
    addr = if cfg.addr == "" then ":8080" else cfg.addr;
    graceful_shutdown_timeout =
        if is_zero cfg.graceful_shutdown_timeout
        then pos 30_000_000_000
        else cfg.graceful_shutdown_timeout;
    protocol_version = if is_zero cfg.protocol_version then pos 1 else cfg.protocol_version;
  }
