-- ===== src/PluginManager/Discovery.antt =====
-- The invariant of the plugin table, and what a discovery adds to it.
use mathlib.Core.List.{append-nil, append_assoc, map-append}
use eventful.Base.{
  false, Option, none, some, List, [], ◌∷◌, ◌++◌, ◌≡◌, refl, sym, ◌∙◌, ap, arith, subst, str_eq,
  Bool-cases, Option-cases, inl, inr, All, All-append,
}
use eventful.Base.Dict
use eventful.Base.Dict.{Dict, IsKeyed, put_fresh, put-IsKeyed}
use eventful.Exceptions.{Exc, Result, ok, err, type_error}
use eventful.PluginManager.{Plugin, PluginManager, register, plugins, discover}

-- Each name is that of one plugin, which is registered under it and is not empty.
pub record IsNamed (m : PluginManager) : Type 0 where
  pub keyed : IsKeyed m
  pub named : All (λ e. (e.1.name ≡ e.0) × (str_eq e.0 "" ≡ false)) m

abbrev added : Plugin → PluginManager → PluginManager
added plugin m = m ++ (plugin.name, plugin) ∷ []

ok-injective : {A : Type 0} {a b : A} → ok a ≡ ok b → a ≡ b
ok-injective h = cc

-- A plugin that is registered goes last.
register-added :
    (plugin : Plugin) (m m' : PluginManager)
    → register (some plugin) m ≡ ok m'
    → (m' ≡ added plugin m) × (str_eq plugin.name "" ≡ false) × (Dict.get plugin.name m ≡ none)
unfolding register
register-added plugin m m' h = elim (Bool-cases (str_eq plugin.name "")) [
  | inl empty ↦ absurd (ground (arith, h, empty))
  | inr filled ↦ elim (Option-cases (Dict.get plugin.name m)) [
    | inr (p, e) ↦ absurd (ground (arith, h, filled, e))
    | inl e ↦
        let g : ok (Dict.put plugin.name plugin m) ≡ ok m' = rw (filled, Dict.contains, e) at h in
        (sym (ok-injective g) ∙ put_fresh plugin.name plugin m e, filled, e)
  ]
]

register-IsNamed :
    (plugin : Plugin) (m m' : PluginManager)
    → IsNamed m
    → register (some plugin) m ≡ ok m'
    → IsNamed m'
register-IsNamed plugin m m' c h =
    let (last, filled, fresh) = register-added plugin m m' h in
    rw last (record {
      keyed =
          subst IsKeyed (put_fresh plugin.name plugin m fresh)
            (put-IsKeyed plugin.name plugin m c.keyed);
      named = All-append _ m ((plugin.name, plugin) ∷ []) c.named ((refl, filled), tt);
    })

-- What a discovery leaves: the plugins that it registered behind the earlier ones, in the order of
-- the entry points, and it returns them if it returns.
pub record Discovered (m : PluginManager) (outcome : Result (List Plugin) × PluginManager)
    : Type 0 where
  pub found : List Plugin
  pub behind : plugins outcome.1 ≡ plugins m ++ found
  pub returned : (ps : List Plugin) → outcome.0 ≡ ok ps → ps ≡ found
  pub is_named : IsNamed outcome.1

nothing : (m : PluginManager) (e : Exc) → IsNamed m → Discovered m (err e, m)
nothing m e c = record {
  found = [];
  behind = sym (append-nil (plugins m));
  returned = λ ps h. absurd cc;
  is_named = c;
}

one_more :
    (plugin : Plugin) (m m' : PluginManager) (outcome : Result (List Plugin) × PluginManager)
    → m' ≡ added plugin m
    → Discovered m' outcome
    → Discovered m (elim outcome.0 [ err e ↦ err e | ok found ↦ ok (plugin ∷ found) ], outcome.1)
one_more plugin m m' outcome last d = record {
  found = plugin ∷ d.found;
  behind =
      d.behind
      ∙ ap (λ x. plugins x ++ d.found) last
      ∙ ap (λ x. x ++ d.found) (map-append _ m ((plugin.name, plugin) ∷ []))
      ∙ append_assoc (plugins m) (plugin ∷ []) d.found;
  returned = by_result outcome.0 d.returned;
  is_named = d.is_named;
}
  where
    by_result :
        (r : Result (List Plugin))
        → ((ps : List Plugin) → r ≡ ok ps → ps ≡ d.found)
        → (ps : List Plugin) → elim r [ err e ↦ err e | ok found ↦ ok (plugin ∷ found) ] ≡ ok ps
        → ps ≡ plugin ∷ d.found
    by_result (err e) k ps h = absurd cc
    by_result (ok found) k ps h = sym (ok-injective h) ∙ ap (◌∷◌ plugin) (k found refl)

-- From a manager whose plugins are registered once under their own names that are not empty, a
-- discovery, whether it returns or raises, leaves such a manager, with the plugins it registered
-- behind the earlier ones.
pub discover-Discovered :
    (loads : List (Result (Option Plugin))) (m : PluginManager)
    → IsNamed m
    → Discovered m (discover loads m)
unfolding discover
discover-Discovered [] m c = record {
  found = [];
  behind = sym (append-nil (plugins m));
  returned = λ ps h. sym (ok-injective h);
  is_named = c;
}
discover-Discovered (err e ∷ loads) m c = nothing m e c
discover-Discovered (ok none ∷ loads) m c = nothing m type_error c
discover-Discovered (ok (some plugin) ∷ loads) m c =
    by_result (λ m' c'. discover-Discovered loads m' c') (register (some plugin) m) refl
  where
    by_result :
        ((m' : PluginManager) → IsNamed m' → Discovered m' (discover loads m'))
        → (r : Result PluginManager) → register (some plugin) m ≡ r
        → Discovered m (elim r [
          | err e ↦ (err e, m)
          | ok m' ↦
              let (rest, m'') = discover loads m' in
              (elim rest [ err e ↦ err e | ok found ↦ ok (plugin ∷ found) ], m'')
        ])
    by_result ih (err e) h = nothing m e c
    by_result ih (ok m') h =
        one_more plugin m m' (discover loads m') (register-added plugin m m' h).0
          (ih m' (register-IsNamed plugin m m' c h))
