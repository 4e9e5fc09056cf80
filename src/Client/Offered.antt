-- ===== src/Client/Offered.antt =====
-- The plugins that a host offers to a client.
use connect_plugin_go.Prelude.{
  String, ◌≡◌, refl, true, not, ◌&&◌, inl, inr, some, Option-cases, List, [], ◌∷◌, contains, map,
  arith, eq_iff, eq_self,
}
use connect_plugin_go.Prelude.Int.{ℤ, pos, negsuc}
use connect_plugin_go.Prelude.Maps.{get, keys}
use connect_plugin_go.Plugin.{PluginMetadata, PluginSet}
use connect_plugin_go.Plugin.Sets.{names_match}
use connect_plugin_go.Handshake.{int_eq, plugin_infos, info_of}
use connect_plugin_go.Client.{all_available, name_of, is_missing}

int_eq_self : (z : ℤ) → int_eq z z ≡ true
int_eq_self (pos n) = ground arith
int_eq_self (negsuc n) = ground arith

get_named :
    (plugins : PluginSet) (name : String) (m : PluginMetadata)
    → names_match plugins ≡ true
    → get plugins name ≡ some m
    → m.name ≡ name
unfolding get
get_named [] name m match e = absurd (ground arith)
get_named ((key, p) ∷ ps) name m match e =
    ground (arith, eq_iff key name, eq_iff p.name key, get_named ps name m)

get_contained :
    (plugins : PluginSet) (name : String)
    → is_missing (get plugins name) ≡ not (contains (keys plugins) name)
unfolding get
get_contained [] name = refl
get_contained ((key, p) ∷ ps) name = ground (arith, get_contained ps name)

pub int_eq_comm : (a b : ℤ) → int_eq a b ≡ int_eq b a
int_eq_comm (pos a) (pos b) = ground arith
int_eq_comm (pos a) (negsuc b) = refl
int_eq_comm (negsuc a) (pos b) = refl
int_eq_comm (negsuc a) (negsuc b) = ground arith

-- The plugins that a response lists are the requested ones that the host's checked set has.
contains-plugin_infos :
    (plugins : PluginSet) (names : List String) (name : String)
    → names_match plugins ≡ true
    → contains (map name_of (plugin_infos plugins names)) name
      ≡ (contains names name && contains (keys plugins) name)
unfolding plugin_infos info_of
contains-plugin_infos plugins [] name match = refl
contains-plugin_infos plugins (n ∷ ns) name match = elim (Option-cases (get plugins n)) [
  | inl e ↦
      ground
        (arith, contains-plugin_infos plugins ns name match, get_contained plugins n, eq_iff n name)
  | inr (m, e) ↦ ground (
    arith,
    contains-plugin_infos plugins ns name match,
    get_contained plugins n,
    get_named plugins n m match e,
    eq_iff n name,
  )
]

all_available-ext :
    (names have have' : List String)
    → ((name : String) → contains names name ≡ true → contains have name ≡ contains have' name)
    → all_available names have ≡ all_available names have'
unfolding all_available
all_available-ext [] have have' h = refl
all_available-ext (n ∷ ns) have have' h =
    ground
      (arith, h n, eq_self n, all_available-ext ns have have' (λ name m. h name (ground arith)))

-- The client finds its plugins in the response just if the host's set has them.
pub all_available-plugin_infos :
    (plugins : PluginSet) (names : List String)
    → names_match plugins ≡ true
    → all_available names (map name_of (plugin_infos plugins names))
      ≡ all_available names (keys plugins)
all_available-plugin_infos plugins names match =
    all_available-ext names (map name_of (plugin_infos plugins names)) (keys plugins)
      (λ name m. ground (arith, m, contains-plugin_infos plugins names name match))
