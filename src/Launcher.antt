-- ===== src/Launcher.antt =====
-- launcher.go, launch_strategy.go: plugins that are launched when one of their services is first asked
-- for. What a strategy's Launch does is code outside the launcher: a function of the spec and of the
-- world as it is at the moment of the call. The registry that a call reads is the one after its wait.
-- `calls` are the launches and clean-ups that an operation has made, in order.
pub mod Counts
pub mod Balance
use connect_plugin_go.Prelude.{
  ℕ, String, Bool, true, false, not, Option, none, some, List, [], ◌∷◌, ◌++◌, ◌==◌, contains,
  if◌then◌else◌,
}
use connect_plugin_go.Prelude.Maps.{Map, get, put}
use connect_plugin_go.Plugin.{PluginMetadata}
use connect_plugin_go.Registry.{ServiceRegistry}
use connect_plugin_go.Registry.Discover.{discover_service}

-- `impl_factory` says whether there is one.
pub record PluginSpec : Type 0 where
  pub name : String
  pub provides : List String
  pub strategy : String
  pub port : ℕ
  pub binary_path : String
  pub host_url : String
  pub plugin : Option PluginMetadata
  pub impl_factory : Bool
  pub metadata : Map String

-- `http_client` names the client of a direct dispatch; `cleanup` says whether there is one.
pub record LaunchResult : Type 0 where
  pub endpoint : String
  pub http_client : Option String
  pub cleanup : Bool

pub record LaunchStrategy (World : Type 0) : Type 0 where
  pub name : String
  pub launch : World → PluginSpec → Option LaunchResult

pub record PluginInstance : Type 0 where
  pub plugin_name : String
  pub endpoint : String
  pub http_client : Option String
  pub cleanup : Bool
  pub provides : List String

pub record PluginLauncher (World : Type 0) : Type 0 where
  pub strategies : Map (LaunchStrategy World)
  pub specs : Map PluginSpec
  pub instances : Map PluginInstance

pub data LaunchError : Type 0 where
  not_configured not_provided strategy_not_registered launch_failed not_in_registry : LaunchError
  not_one_service : LaunchError

-- A call of a strategy's Launch for a plugin that has given a result, and a call of a clean-up.
pub data Call : Type 0 where
  launched : String → LaunchResult → Call
  cleaned_up : String → Call

pub data Result (A : Type 0) : Type 0 where
  ok : A → Result A
  err : LaunchError → Result A

add_specs : Map PluginSpec → Map PluginSpec → Map PluginSpec
add_specs [] specs = specs
add_specs ((name, spec) ∷ more) specs = add_specs more (put specs name spec)

-- The instance that is stored for a launch
abbrev pub instance_of : String → PluginSpec → LaunchResult → PluginInstance
instance_of name spec r = record {
  plugin_name = name;
  endpoint = r.endpoint;
  http_client = r.http_client;
  cleanup = r.cleanup;
  provides = spec.provides;
}

only_service : Option PluginSpec → Result String
only_service none = err not_configured
only_service (some spec) = elim spec.provides [
  | [] ↦ err not_one_service
  | type ∷ types ↦ elim types [ [] ↦ ok type | other ∷ others ↦ err not_one_service ]
]

pub cleanups : Map PluginInstance → List Call
cleanups [] = []
cleanups ((name, i) ∷ is) = if i.cleanup then cleaned_up name ∷ cleanups is else cleanups is

-- An operation's effect: the launcher after it, the calls it made, and its result
abbrev pub Effect : Type 0 → Type 0 → Type 0
Effect World A = PluginLauncher World × List Call × Result A

module _ {World : Type 0} where
  -- NewPluginLauncher
  abbrev pub new_plugin_launcher : PluginLauncher World
  new_plugin_launcher = record { strategies = []; specs = []; instances = [] }

  -- RegisterStrategy
  abbrev pub register_strategy : LaunchStrategy World → PluginLauncher World → PluginLauncher World
  register_strategy s l = record l { strategies = put l.strategies s.name s }

  -- Configure
  unfoldable pub configure : Map PluginSpec → PluginLauncher World → PluginLauncher World
  unfolding add_specs
  configure more l = record l { specs = add_specs more l.specs }

  store_instance :
      String → PluginSpec → Option LaunchResult → PluginLauncher World → Effect World PluginInstance
  store_instance name spec none l = (l, [], err launch_failed)
  store_instance name spec (some r) l =
      let i = instance_of name spec r in
      (record l { instances = put l.instances name i }, launched name r ∷ [], ok i)

  -- launchPluginLocked
  unfoldable pub launch_plugin :
      World → String → PluginSpec → PluginLauncher World → Effect World PluginInstance
  unfolding store_instance
  launch_plugin world name spec l = elim (get l.strategies spec.strategy) [
    | none ↦ (l, [], err strategy_not_registered)
    | some s ↦ store_instance name spec (s.launch world spec) l
  ]

  -- Step 3 of GetService: the instance that is there, or a launch
  unfoldable pub running_instance :
      World → String → PluginSpec → PluginLauncher World → Effect World PluginInstance
  running_instance world name spec l = elim (get l.instances name) [
    | some i ↦ (l, [], ok i)
    | none ↦ launch_plugin world name spec l
  ]

  provided_instance :
      World
      → String
      → String
      → Option PluginSpec
      → PluginLauncher World
      → Effect World PluginInstance
  provided_instance world name type none l = (l, [], err not_configured)
  provided_instance world name type (some spec) l =
      if not (contains spec.provides type)
      then (l, [], err not_provided)
      else running_instance world name spec l

  -- Steps 1 to 3, which GetService and GetServiceClient share
  unfoldable pub find_instance :
      World → String → String → PluginLauncher World → Effect World PluginInstance
  unfolding provided_instance
  find_instance world name type l = provided_instance world name type (get l.specs name) l

  abbrev client_of : Effect World PluginInstance → Effect World (String × Option String)
  client_of (l, calls, err e) = (l, calls, err e)
  client_of (l, calls, ok i) = (l, calls, ok (i.endpoint, i.http_client))

  -- GetServiceClient
  unfoldable pub get_service_client :
      World → String → String → PluginLauncher World → Effect World (String × Option String)
  get_service_client world name type l = client_of (find_instance world name type l)

  verified_endpoint :
      String
      → ℕ
      → ServiceRegistry
      → Effect World PluginInstance
      → Effect World String × ServiceRegistry
  verified_endpoint type draw r (l, calls, err e) = ((l, calls, err e), r)
  verified_endpoint type draw r (l, calls, ok i) =
      let (r', found) = discover_service type "" draw r in
      elim found [
        | none ↦ ((l, calls, err not_in_registry), r')
        | some response ↦ ((l, calls, ok i.endpoint), r')
      ]

  -- GetService
  unfoldable pub get_service :
      World
      → ℕ
      → ServiceRegistry
      → String
      → String
      → PluginLauncher World
      → Effect World String × ServiceRegistry
  unfolding verified_endpoint
  get_service world draw r name type l =
      verified_endpoint type draw r (find_instance world name type l)

  default_of :
      World
      → ℕ
      → ServiceRegistry
      → String
      → Result String
      → PluginLauncher World
      → Effect World String × ServiceRegistry
  default_of world draw r name (err e) l = ((l, [], err e), r)
  default_of world draw r name (ok type) l = get_service world draw r name type l

  -- GetDefaultService
  unfoldable pub get_default_service :
      World
      → ℕ
      → ServiceRegistry
      → String
      → PluginLauncher World
      → Effect World String × ServiceRegistry
  unfolding only_service default_of
  get_default_service world draw r name l =
      default_of world draw r name (only_service (get l.specs name)) l

  -- Shutdown
  unfoldable pub shutdown : PluginLauncher World → PluginLauncher World × List Call
  unfolding cleanups
  shutdown l = (record l { instances = [] }, cleanups l.instances)
