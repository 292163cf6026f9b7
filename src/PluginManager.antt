-- ===== src/PluginManager.antt =====
-- src/eventful/plugins/__init__.py: plugins by unique names. The lock makes each operation on the
-- table one step.
pub mod Discovery
pub mod Tests
use eventful.Base.{
  Bool, true, false, ℕ, String, Option, none, some, List, [], ◌∷◌, ◌++◌, map, if◌then◌else◌, str_eq,
}
use eventful.Base.Dict
use eventful.Base.Dict.{Dict}
use eventful.Event.{Fields, end, or_default}
use eventful.Exceptions.{Exc, Result, ok, err, type_error, key_error, contract_error}
use eventful.Runtime.{Comp, pure, raise, ◌>>=◌, ◌>>◌}

-- A plugin object, by its identity, with its stable name.
pub record Plugin : Type 0 where
  pub ident : ℕ
  pub name : String

abbrev pub PluginManager : Type 0
PluginManager = Dict Plugin

-- `register`; an object that is no `Plugin` is `none`.
unfoldable pub register : Option Plugin → PluginManager → Result PluginManager
register none m = err type_error
register (some plugin) m =
    if str_eq plugin.name ""
    then err contract_error
    else if Dict.contains plugin.name m
    then err contract_error
    else ok (Dict.put plugin.name plugin m)

-- `get`
unfoldable pub get : String → PluginManager → Result Plugin
get name m = elim (Dict.get name m) [ none ↦ err key_error | some plugin ↦ ok plugin ]

-- `plugins`
abbrev pub plugins : PluginManager → List Plugin
plugins m = Dict.values m

-- `discover`, over what loading the entry points gives one after the other: an object, and no plugin
-- is `none`, or an exception. What was registered before a failure stays registered.
unfoldable pub discover :
    List (Result (Option Plugin)) → PluginManager → Result (List Plugin) × PluginManager
unfolding register
discover [] m = (ok [], m)
discover (err e ∷ loads) m = (err e, m)
discover (ok none ∷ loads) m = (err type_error, m)
discover (ok (some plugin) ∷ loads) m = elim (register (some plugin) m) [
  | err e ↦ (err e, m)
  | ok m' ↦
      let (rest, m'') = discover loads m' in
      (elim rest [ err e ↦ err e | ok found ↦ ok (plugin ∷ found) ], m'')
]

-- `set(settings).difference(...)` is empty.
unfoldable pub all_known : Dict Fields → PluginManager → Bool
all_known [] m = true
all_known ((name, fields) ∷ settings) m =
    let rest = all_known settings m in if Dict.contains name m then rest else false

module _ {S : Type 0} (configure_plugin : Plugin → Fields → Comp S (Unit {0})) where
  unfoldable pub configure_each : Dict Fields → List Plugin → Comp S (Unit {0})
  configure_each settings [] = pure tt
  configure_each settings (plugin ∷ rest) = do
    configure_plugin plugin (or_default end (Dict.get plugin.name settings))
    configure_each settings rest

  -- `configure`, of the plugins that are registered when it is called
  unfoldable pub configure : Dict Fields → PluginManager → Comp S (Unit {0})
  unfolding all_known configure_each
  configure settings m =
      if all_known settings m then configure_each settings (plugins m) else raise contract_error
