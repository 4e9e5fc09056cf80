-- ===== src/Server/Accepts.antt =====
-- Which configurations Serve goes on with.
use connect_plugin_go.Prelude.{
  String, ◌≢◌, ◌≤◌, count, ◌≡◌, ◌↔◌, refl, sym, ◌∙◌, if◌then◌else◌, inl, inr, true, false,
  Bool-cases, none, some, Option-cases, List, [], ◌∷◌, contains, arith, eq_iff, eq_self, ◌==◌,
}
use connect_plugin_go.Prelude.Int.{ℤ, pos, is_zero}
use connect_plugin_go.Prelude.Maps.{Map, get, keys, get_contains, contains_got}
use connect_plugin_go.Plugin.{PluginSet}
use connect_plugin_go.Plugin
use connect_plugin_go.Plugin.Sets.{names_match, paths, validate_iff}
use connect_plugin_go.Server.{
  ServeConfig, validate, with_defaults, first_missing, is_negative, maps_error, definitions_error,
  plugins_error,
}

module _ {ℓ} {V : Type ℓ} where
  none_missing :
      (names : List String) (m : Map V)
      → first_missing names m ≡ none
      → (name : String) → contains names name ≡ true
      → contains (keys m) name ≡ true
  unfolding first_missing
  none_missing [] m h name c = absurd (ground arith)
  none_missing (n ∷ ns) m h name c = elim (Option-cases (get m n)) [
    | inl e ↦ absurd (ground arith)
    | inr (v, e) ↦ elim (Bool-cases (n == name)) [
      | inl same ↦ ground (arith, eq_iff n name, contains_got m n v e)
      | inr other ↦ none_missing ns m (ground arith) name (ground arith)
    ]
  ]

  missing_none :
      (names : List String) (m : Map V)
      → ((name : String) → contains names name ≡ true → contains (keys m) name ≡ true)
      → first_missing names m ≡ none
  unfolding first_missing
  missing_none [] m h = refl
  missing_none (n ∷ ns) m h =
      let (v, e) = get_contains m n (h n (ground (arith, eq_self n))) in
      ground (arith, missing_none ns m (λ name c. h name (ground arith)))

default_is_negative :
    (version : ℤ) → is_negative version ≡ is_negative (if is_zero version then pos 1 else version)
default_is_negative version = ground arith

maps_error_iff :
    {Impl : Type 0} (ps : PluginSet) (is : Map Impl) (version : ℤ)
    → (maps_error ps is version ≡ none) ↔ (
        ((name : String) → contains (keys ps) name ≡ contains (keys is) name)
        × (Plugin.validate ps ≡ none)
        × (is_negative version ≡ false))
unfolding maps_error definitions_error plugins_error
maps_error_iff ps is version = (
  λ h. elim (Option-cases (first_missing (keys ps) is)) [
    | inr (n, e) ↦ absurd (ground arith)
    | inl e ↦ elim (Option-cases (first_missing (keys is) ps)) [
      | inr (n, f) ↦ absurd (ground arith)
      | inl f ↦ elim (Option-cases (Plugin.validate ps)) [
        | inr (x, g) ↦ absurd (ground arith)
        | inl g ↦ (
          λ name.
              ground (arith, none_missing (keys ps) is e name, none_missing (keys is) ps f name),
          g,
          ground arith,
        )
      ]
    ]
  ],
  λ (same, valid, positive). ground (
    arith,
    missing_none (keys ps) is (λ name c. ground (arith, same name)),
    missing_none (keys is) ps (λ name c. ground (arith, same name)),
    valid,
    positive,
  ),
)

-- Serve goes on, its defaults applied, just with configurations whose plugins and implementations are
-- set and have the same names, where there is a plugin, each is named as its key says and no path is
-- used twice, and the protocol version is not negative.
pub serve_accepts_iff :
    {Impl : Type 0} (cfg : ServeConfig Impl)
    → (validate (with_defaults cfg) ≡ none) ↔ (
        (ps : PluginSet) × (is : Map Impl) × (cfg.plugins ≡ some ps)
        × (cfg.impls ≡ some is)
        × ((name : String) → contains (keys ps) name ≡ contains (keys is) name)
        × (ps ≢ [])
        × (names_match ps ≡ true)
        × ((path : String) → count path (paths ps) ≤ 1)
        × (is_negative cfg.protocol_version ≡ false))
unfolding validate with_defaults
serve_accepts_iff cfg = (
  λ h. elim (Option-cases cfg.plugins) [
    | inl e ↦ absurd (ground arith)
    | inr (ps, e) ↦ elim (Option-cases cfg.impls) [
      | inl f ↦ absurd (ground arith)
      | inr (is, f) ↦
          let (same, valid, positive) =
            (maps_error_iff ps is (with_defaults cfg).protocol_version).0 (ground arith) in
          let (some_plugin, match, once) = (validate_iff ps).0 valid in
          (
            ps,
            is,
            e,
            f,
            same,
            some_plugin,
            match,
            once,
            default_is_negative cfg.protocol_version ∙ positive,
          )
    ]
  ],
  λ (ps, is, e, f, same, some_plugin, match, once, positive).
      rw (e, f)
        ((maps_error_iff ps is (with_defaults cfg).protocol_version).1 (
          same,
          (validate_iff ps).1 (some_plugin, match, once),
          sym (default_is_negative cfg.protocol_version) ∙ positive,
        )),
)
