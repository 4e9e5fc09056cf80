-- ===== src/Launcher/Counts.antt =====
-- How often plugins are launched, cleaned up and held.
use connect_plugin_go.Prelude.{
  ℕ, suc, ◌+◌, ◌≡◌, refl, String, ◌&&◌, none, List, [], ◌∷◌, ◌++◌, ◌==◌, if◌then◌else◌, arith,
}
use connect_plugin_go.Prelude.Maps.{Map, get, put}
use connect_plugin_go.Launcher.{PluginInstance, Call, launched, cleaned_up, cleanups}

-- How many launches of the plugin have given a clean-up
unfoldable pub opened : String → List Call → ℕ
opened name [] = 0
opened name (launched n r ∷ cs) =
    let rest = opened name cs in if n == name && r.cleanup then suc rest else rest
opened name (cleaned_up n ∷ cs) = opened name cs

-- How often the plugin has been cleaned up
unfoldable pub closed : String → List Call → ℕ
closed name [] = 0
closed name (launched n r ∷ cs) = closed name cs
closed name (cleaned_up n ∷ cs) = let rest = closed name cs in if n == name then suc rest else rest

-- How many instances of the plugin that are to be cleaned up are stored
unfoldable pub holding : String → Map PluginInstance → ℕ
holding name [] = 0
holding name ((n, i) ∷ is) =
    let rest = holding name is in if n == name && i.cleanup then suc rest else rest

pub opened-append :
    (name : String) (xs ys : List Call) → opened name (xs ++ ys) ≡ opened name xs + opened name ys
unfolding opened
opened-append name [] ys = omega arith
opened-append name (launched n r ∷ xs) ys = ground (arith, opened-append name xs ys)
opened-append name (cleaned_up n ∷ xs) ys = opened-append name xs ys

pub closed-append :
    (name : String) (xs ys : List Call) → closed name (xs ++ ys) ≡ closed name xs + closed name ys
unfolding closed
closed-append name [] ys = omega arith
closed-append name (launched n r ∷ xs) ys = closed-append name xs ys
closed-append name (cleaned_up n ∷ xs) ys = ground (arith, closed-append name xs ys)

pub closed-cleanups :
    (name : String) (is : Map PluginInstance) → closed name (cleanups is) ≡ holding name is
unfolding closed cleanups holding
closed-cleanups name [] = refl
closed-cleanups name ((n, i) ∷ is) = ground (arith, closed-cleanups name is)

pub opened-cleanups : (name : String) (is : Map PluginInstance) → opened name (cleanups is) ≡ 0
unfolding opened cleanups
opened-cleanups name [] = refl
opened-cleanups name ((n, i) ∷ is) = ground (arith, opened-cleanups name is)

pub holding_absent :
    (name : String) (is : Map PluginInstance) → get is name ≡ none → holding name is ≡ 0
unfolding get holding
holding_absent name [] e = refl
holding_absent name ((n, i) ∷ is) e = ground (arith, holding_absent name is)

pub holding-put :
    (name key : String) (i : PluginInstance) (is : Map PluginInstance)
    → get is key ≡ none
    → holding name (put is key i) ≡ (if key == name && i.cleanup then 1 else 0) + holding name is
unfolding get put holding
holding-put name key i [] e = ground arith
holding-put name key i ((n, x) ∷ is) e = ground (arith, holding-put name key i is)
