-- ===== src/Plugins.antt =====
-- The choice of plugins from the database: `plugin_gen_query` and `get_all_plugin_dicts` of
-- owtf/managers/plugin.py and `name_to_code` of owtf/models/plugin.py. `plugins` are the rows of
-- the table, `priority` is that of a plugin's test group.

use owtf.Base.{
  String, Bool, ◌&&◌, ◌||◌, Option, none, some, List, [], ◌∷◌, str_eq, if◌then◌else◌, is_some, keep,
  find_first,
}
use text.Mathlib.Text.{find?}
use owtf.Base.Int.{ℤ}
use owtf.Base.Sorting.{sorted_reverse}
use owtf.Db.Models.{Plugin}
use owtf.Exceptions.{Result, ok, err, ◌>>=◌, type_error}
use owtf.Poutput.Criteria.{Criterion, accepts, many}

pub record Criteria : Type 0 where
  pub type : Criterion
  pub group : Criterion
  pub code : Criterion
  pub name : Criterion

abbrev pub is_code : String → Bool
is_code name = is_some (find? name "OWTF-") || is_some (find? name "PTES-")

module _ (plugins : List Plugin) (priority : Plugin → ℤ) where
  -- A name of no plugin is a TypeError, as `first()` is None then.
  unfoldable pub name_to_code : List String → Result (List String)
  name_to_code [] = ok []
  name_to_code (name ∷ names) = do
    code ← if is_code name then ok name else elim (find_first (λ p. str_eq p.name name) plugins) [
      | none ↦ err type_error
      | some p ↦ ok p.code
    ]
    codes ← name_to_code names
    ok (code ∷ codes)

  unfoldable pub plugin_gen_query : Criteria → List Plugin
  plugin_gen_query c = sorted_reverse priority (
      keep
        (λ p.
          accepts c.type p.type
          && accepts c.group p.group
          && accepts c.code p.code
          && accepts c.name p.name)
        plugins)

  -- `codes` is the list under "code", if that key is there.
  unfoldable pub get_all_plugin_dicts : Criteria → Option (List String) → Result (List Plugin)
  get_all_plugin_dicts c none = ok (plugin_gen_query c)
  get_all_plugin_dicts c (some codes) = do
    found ← name_to_code codes
    ok (plugin_gen_query (record c { code = many found }))
