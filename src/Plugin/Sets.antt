-- ===== src/Plugin/Sets.antt =====
-- Which plugin sets Validate accepts.
use connect_plugin_go.Prelude.{
  ℕ, ◌≤◌, String, ◌≡◌, ◌≢◌, ◌↔◌, refl, inl, inr, Bool, true, ◌&&◌, Option-cases, none, some, List,
  [], ◌∷◌, arith, eq_iff, eq_self, count, ◌==◌,
}
use connect_plugin_go.Prelude.Maps.{Map, get, put, get-put}
use connect_plugin_go.Plugin.{PluginSet, validate, validate_from}

-- Each plugin of the set is named as its key says.
abbrev pub names_match : PluginSet → Bool
names_match [] = true
names_match ((name, metadata) ∷ ps) = metadata.name == name && names_match ps

-- The paths of the set's plugins.
abbrev pub paths : PluginSet → List String
paths [] = []
paths ((name, metadata) ∷ ps) = metadata.path ∷ paths ps

abbrev allowed : Map String → String → ℕ
allowed seen path = elim (get seen path) [ none ↦ 1 | some name ↦ 0 ]

accepted_from :
    (seen : Map String) (ps : PluginSet)
    → validate_from seen ps ≡ none
    → (names_match ps ≡ true) × ((path : String) → count path (paths ps) ≤ allowed seen path)
unfolding validate_from
accepted_from seen [] h = (refl, λ path. omega arith)
accepted_from seen ((name, m) ∷ ps) h = elim (Option-cases (get seen m.path)) [
  | inr (existing, e) ↦ absurd (ground arith)
  | inl unused ↦
      let (match, fit) = accepted_from (put seen m.path name) ps (ground arith) in
      (
        ground arith,
        λ path. ground (arith, fit path, get-put seen m.path path name, eq_iff m.path path),
      )
]

accepts_from :
    (seen : Map String) (ps : PluginSet)
    → names_match ps ≡ true
    → ((path : String) → count path (paths ps) ≤ allowed seen path)
    → validate_from seen ps ≡ none
unfolding validate_from
accepts_from seen [] match fit = refl
accepts_from seen ((name, m) ∷ ps) match fit =
    let rest =
      accepts_from (put seen m.path name) ps (ground arith)
        (λ path. ground (arith, fit path, get-put seen m.path path name, eq_iff m.path path)) in
    ground (arith, rest, fit m.path, eq_self m.path)

-- Validate accepts exactly the plugin sets that are not empty, in which each plugin's name is its key,
-- and in which no path is used twice.
pub validate_iff :
    (ps : PluginSet)
    → (validate ps ≡ none)
      ↔ ((ps ≢ []) × (names_match ps ≡ true) × ((path : String) → count path (paths ps) ≤ 1))
unfolding validate
validate_iff [] = (λ h. cc, λ (ne, match, fit). absurd (ne refl))
validate_iff (p ∷ ps) = (
  λ h.
      let (match, fit) = accepted_from [] (p ∷ ps) h in
      (λ e. cc, match, λ path. unfold get in omega (arith, fit path)),
  λ (ne, match, fit).
      accepts_from [] (p ∷ ps) match (λ path. unfold get in omega (arith, fit path)),
)
