-- ===== src/Launcher/Balance.antt =====
-- Launches and clean-ups of a launcher over its whole life.
use connect_plugin_go.Prelude.{
  ℕ, ◌+◌, ◌≤◌, ◌≡◌, refl, String, inl, inr, Bool-cases, Option, none, some, Option-cases, List, [],
  ◌∷◌, ◌++◌, contains, arith, eq_iff,
}
use connect_plugin_go.Prelude.Maps.{Map, get}
use connect_plugin_go.Registry.{ServiceRegistry}
use connect_plugin_go.Registry.Discover.{discover_service}
use connect_plugin_go.Launcher.{
  PluginSpec, LaunchResult, LaunchStrategy, PluginInstance, PluginLauncher, Call, Result, ok, err,
  Effect, new_plugin_launcher, register_strategy, configure, instance_of, store_instance,
  launch_plugin, running_instance, provided_instance, find_instance, get_service_client,
  verified_endpoint, get_service, only_service, get_default_service, default_of, client_of,
  shutdown,
}
use connect_plugin_go.Launcher.Counts.{
  opened, closed, holding, opened-append, closed-append, closed-cleanups, opened-cleanups,
  holding_absent, holding-put,
}

-- From one launcher to another by some calls: what is opened is closed or held, and no plugin comes to
-- be held twice.
abbrev Goes : {World : Type 0} → PluginLauncher World → PluginLauncher World → List Call → Type 0
Goes l l' calls =
    (name : String)
    → (opened name calls + holding name l.instances ≡ closed name calls + holding name l'.instances)
      × (holding name l.instances ≤ 1 → holding name l'.instances ≤ 1)

module _ {World : Type 0} where
  stays : (l : PluginLauncher World) → Goes l l []
  unfolding opened closed
  stays l name = (refl, λ h. h)

  store_instance-Goes :
      (name : String) (spec : PluginSpec) (r : Option LaunchResult) (l : PluginLauncher World)
      → get l.instances name ≡ none
      → let e = store_instance name spec r l in Goes l e.0 e.1
  unfolding store_instance opened closed
  store_instance-Goes name spec none l absent key = stays l key
  store_instance-Goes name spec (some r) l absent key =
      rw (holding-put key name (instance_of name spec r) l.instances absent)
        (ground (arith, eq_iff name key, holding_absent key l.instances))

  running_instance-Goes :
      (world : World) (name : String) (spec : PluginSpec) (l : PluginLauncher World)
      → let e = running_instance world name spec l in Goes l e.0 e.1
  unfolding running_instance launch_plugin
  running_instance-Goes world name spec l = elim (Option-cases (get l.instances name)) [
    | inr (i, e) ↦ rw (running_instance, e) (stays l)
    | inl e ↦ elim (Option-cases (get l.strategies spec.strategy)) [
      | inl f ↦ rw (running_instance, e, launch_plugin, f) (stays l)
      | inr (s, f) ↦
          rw (running_instance, e, launch_plugin, f)
            (store_instance-Goes name spec (s.launch world spec) l e)
    ]
  ]

  find_instance-Goes :
      (world : World) (name type : String) (l : PluginLauncher World)
      → let e = find_instance world name type l in Goes l e.0 e.1
  unfolding find_instance provided_instance
  find_instance-Goes world name type l = elim (Option-cases (get l.specs name)) [
    | inl e ↦ rw e (stays l)
    | inr (spec, e) ↦ rw e (elim (Bool-cases (contains spec.provides type)) [
      | inl f ↦ rw f (running_instance-Goes world name spec l)
      | inr f ↦ rw f (stays l)
    ])
  ]

  client_of-Goes :
      (l : PluginLauncher World) (e : Effect World PluginInstance)
      → Goes l e.0 e.1
      → Goes l (client_of e).0 (client_of e).1
  client_of-Goes l (l', calls, ok i) h = h
  client_of-Goes l (l', calls, err e) h = h

  verified_endpoint-Goes :
      (l : PluginLauncher World) (type : String) (draw : ℕ) (registry : ServiceRegistry)
      (e : Effect World PluginInstance)
      → Goes l e.0 e.1
      → let v = verified_endpoint type draw registry e in Goes l v.0.0 v.0.1
  unfolding verified_endpoint
  verified_endpoint-Goes l type draw registry (l', calls, err e) h = h
  verified_endpoint-Goes l type draw registry (l', calls, ok i) h =
      elim (Option-cases (discover_service type "" draw registry).1) [
        | inl e ↦ rw (verified_endpoint, e) h
        | inr (response, e) ↦ rw (verified_endpoint, e) h
      ]

  get_service-Goes :
      (world : World) (draw : ℕ) (registry : ServiceRegistry) (name type : String)
      (l : PluginLauncher World)
      → let e = get_service world draw registry name type l in Goes l e.0.0 e.0.1
  unfolding get_service
  get_service-Goes world draw registry name type l =
      verified_endpoint-Goes l type draw registry (find_instance world name type l)
        (find_instance-Goes world name type l)

  default-Goes :
      (world : World) (draw : ℕ) (registry : ServiceRegistry) (name : String) (type : Result String)
      (l : PluginLauncher World)
      → let e = default_of world draw registry name type l in Goes l e.0.0 e.0.1
  unfolding default_of
  default-Goes world draw registry name (ok type) l =
      get_service-Goes world draw registry name type l
  default-Goes world draw registry name (err e) l = stays l

  shutdown-Goes : (l : PluginLauncher World) → let (l', calls) = shutdown l in Goes l l' calls
  unfolding shutdown holding
  shutdown-Goes l name =
      rw (opened-cleanups name l.instances, closed-cleanups name l.instances)
        (omega arith, λ h. omega arith)

-- The operations of a launcher
pub data Operation (World : Type 0) : Type 0 where
  registers : LaunchStrategy World → Operation World
  configures : Map PluginSpec → Operation World
  gets_service : World → ℕ → ServiceRegistry → String → String → Operation World
  gets_service_client : World → String → String → Operation World
  gets_default_service : World → ℕ → ServiceRegistry → String → Operation World
  shuts_down : Operation World

module _ {World : Type 0} where
  unfoldable pub perform : Operation World → PluginLauncher World → PluginLauncher World × List Call
  perform (registers s) l = (register_strategy s l, [])
  perform (configures specs) l = (configure specs l, [])
  perform (gets_service world draw registry name type) l =
      let e = get_service world draw registry name type l in (e.0.0, e.0.1)
  perform (gets_service_client world name type) l =
      let e = get_service_client world name type l in (e.0, e.1)
  perform (gets_default_service world draw registry name) l =
      let e = get_default_service world draw registry name l in (e.0.0, e.0.1)
  perform shuts_down l = shutdown l

  -- A life of a launcher, with all calls that it makes
  unfoldable pub run :
      List (Operation World) → PluginLauncher World → PluginLauncher World × List Call
  run [] l = (l, [])
  run (o ∷ os) l =
      let (l', calls) = perform o l in let (l'', more) = run os l' in (l'', calls ++ more)

  perform-Goes :
      (o : Operation World) (l : PluginLauncher World)
      → let (l', calls) = perform o l in Goes l l' calls
  unfolding perform configure get_service_client get_default_service
  perform-Goes (registers s) l = stays l
  perform-Goes (configures specs) l = stays l
  perform-Goes (gets_service world draw registry name type) l =
      get_service-Goes world draw registry name type l
  perform-Goes (gets_service_client world name type) l =
      client_of-Goes l (find_instance world name type l) (find_instance-Goes world name type l)
  perform-Goes (gets_default_service world draw registry name) l =
      default-Goes world draw registry name (only_service (get l.specs name)) l
  perform-Goes shuts_down l = shutdown-Goes l

  run-Goes :
      (os : List (Operation World)) (l : PluginLauncher World)
      → let (l', calls) = run os l in Goes l l' calls
  unfolding run
  run-Goes [] l name = stays l name
  run-Goes (o ∷ os) l name =
      let (l', calls) = perform o l in
      let (l'', more) = run os l' in
      let (b, c) = perform-Goes o l name in
      let (b', c') = run-Goes os l' name in
      (
        omega (arith, b, b', opened-append name calls more, closed-append name calls more),
        λ h. c' (c h),
      )

-- Over every life of a launcher, a plugin's launches that gave a clean-up are at all times its clean-ups
-- and at most one more, that of the instance held; and when Shutdown follows, each of them has been
-- cleaned up exactly once.
pub launches_are_cleaned_up :
    {World : Type 0} (os : List (Operation World)) (name : String)
    → let (l, calls) = run os new_plugin_launcher in
      let (l', last) = shutdown l in
      (opened name calls ≡ closed name calls + holding name l.instances)
      × (holding name l.instances ≤ 1)
      × (opened name (calls ++ last) ≡ closed name (calls ++ last))
      × (l'.instances ≡ [])
unfolding holding shutdown
launches_are_cleaned_up os name =
    let (l, calls) = run os new_plugin_launcher in
    let (b, c) = run-Goes os new_plugin_launcher name in
    let (b', c') = shutdown-Goes l name in
    let last = (shutdown l).1 in
    (
      omega (arith, b),
      c (omega arith),
      omega (arith, b, b', opened-append name calls last, closed-append name calls last),
      refl,
    )
