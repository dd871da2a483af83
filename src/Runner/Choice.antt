-- ===== src/Runner/Choice.antt =====
-- `on_start`, `validate_format_plugin_list`, `chosen_plugin` and `can_plugin_run` of
-- owtf/plugin/runner.py: which plugins the runner lets run.

use owtf.Base.{
  ℕ, String, ◌≡◌, refl, Bool, true, false, not, ◌&&◌, ◌||◌, Option, none, some, List, [], ◌∷◌,
  arith, str_eq, if◌then◌else◌, is_some, find_first, any, All, mem_str,
}
use owtf.Db.Table.{Table}
use owtf.Db.Files.{Files}
use owtf.Db.Models.{Plugin, PluginOutput}
use owtf.Exceptions.{Result, ok, err, framework_abort, ◌>>=◌}
use owtf.Poutput.{Outputs, plugin_already_run, is_run_of}

-- The options of the command line that the runner reads.
pub record Options : Type 0 where
  pub force_overwrite : Bool
  pub plugin_group : Option String
  pub only_plugins : Option (List String)
  pub except_plugins : Option (List String)
  pub simulation : Bool

-- The attributes of `PluginRunner` that choose plugins; `none` is None.
pub record Runner : Type 0 where
  pub force_overwrite : Bool
  pub plugin_group : Option String
  pub only_plugins : Option (List String)
  pub except_plugins : Option (List String)
  pub only_plugins_list : Option (List String)
  pub except_plugins_list : Option (List String)
  pub simulation : Bool
  pub plugin_count : ℕ

-- `__init__`
abbrev pub new_runner : Runner
new_runner = record {
  force_overwrite = false;
  plugin_group = none;
  only_plugins = none;
  except_plugins = none;
  only_plugins_list = none;
  except_plugins_list = none;
  simulation = false;
  plugin_count = 0;
}

abbrev pub is_named : String → Plugin → Bool
is_named code p = str_eq code p.code || str_eq code p.name

-- The loop of `validate_format_plugin_list` over the plugins of the runner's group: each entry is
-- the code or the name of one, or the framework aborts.
unfoldable pub validate_codes : List Plugin → List String → Result (List String)
validate_codes group [] = ok []
validate_codes group (code ∷ codes) = elim (find_first (is_named code) group) [
  | none ↦ err framework_abort
  | some p ↦ do rest ← validate_codes group codes; ok (p.code ∷ rest)
]

-- None and the empty list give the empty list.
unfoldable pub validate_format_plugin_list :
    List Plugin → Option (List String) → Result (List String)
unfolding validate_codes
validate_format_plugin_list group none = ok []
validate_format_plugin_list group (some codes) = validate_codes group codes

-- As written: the validated white-list is stored as the black-list, and `only_plugins_list` is
-- never assigned. `plugins_of g` are the plugins of a group.
unfoldable pub on_start : (Option String → List Plugin) → Options → Runner → Result Runner
on_start plugins_of options r = do
  except_list ← validate_format_plugin_list (plugins_of options.plugin_group) options.only_plugins
  ok (record r {
    force_overwrite = options.force_overwrite;
    plugin_group = options.plugin_group;
    only_plugins = options.only_plugins;
    except_plugins = options.except_plugins;
    except_plugins_list = some except_list;
    simulation = options.simulation;
  })

abbrev pub is_group : Option String → String → Bool
is_group none g = false
is_group (some h) g = str_eq g h

-- `lst and code not in lst`
abbrev pub outside : Option (List String) → String → Bool
outside none code = false
outside (some []) code = false
outside (some (c ∷ cs)) code = not (mem_str code (c ∷ cs))

-- `lst and code in lst`
abbrev pub inside : Option (List String) → String → Bool
inside none code = false
inside (some cs) code = mem_str code cs

-- `types` is `get_types_for_plugin_group(session, plugin["group"])`.
unfoldable pub chosen_plugin : Runner → List String → Plugin → Bool
chosen_plugin r types p =
    let listed =
      if is_group r.plugin_group p.group
      then not (outside r.only_plugins_list p.code) && not (inside r.except_plugins_list p.code)
      else true in
    listed && mem_str p.type types

module _ (table : Table PluginOutput) (files : Files) where
  -- `plugin_already_run` is called with no target, which is None.
  unfoldable pub can_plugin_run : Runner → List String → Plugin → Outputs table files → Bool
  can_plugin_run r types p s =
      let run = plugin_already_run table files p none s in
      if not (chosen_plugin r types p)
      then false
      else if run
          && ((not r.force_overwrite && not (str_eq "grep" p.type)) || str_eq p.type "external")
      then false
      else not (str_eq "grep" p.type && run)

-- A plugin of the runner's group that the user asked for by `only_plugins` is refused, and one
-- that was not asked for is chosen, given that its type exists: the white-list works as a
-- black-list. `except_plugins` plays no part.
pub chosen_plugin-on_start :
    (plugins_of : Option String → List Plugin) (options : Options) (r : Runner) (only : List String)
    (types : List String) (p : Plugin)
    → is_group options.plugin_group p.group ≡ true
    → validate_format_plugin_list (plugins_of options.plugin_group) options.only_plugins ≡ ok only
    → on_start plugins_of options new_runner ≡ ok r
    → chosen_plugin r types p ≡ (not (mem_str p.code only) && mem_str p.type types)
unfolding on_start chosen_plugin
chosen_plugin-on_start plugins_of options r only types p g valid e =
    let e' = rw valid at e in ground arith

-- Every stored output names its target, as `save_plugin_output` makes them.
abbrev pub HasTarget : PluginOutput → Type 0
HasTarget r = is_some r.target_id ≡ true

not_run :
    (table : Table PluginOutput) (files : Files) (p : Plugin) (rs : List PluginOutput)
    → All HasTarget rs
    → any (is_run_of table files p none) rs ≡ false
not_run table files p [] h = refl
not_run table files p (r ∷ rs) h = ground (arith, not_run table files p rs h.1, h.0)

-- The check for an earlier run asks for outputs with no target, so if every stored output names
-- its target it never stops a plugin: what can run is what was chosen, whether or not it has run and whether or not overwriting is forced.
pub can_plugin_run-eq-chosen_plugin :
    (table : Table PluginOutput) (files : Files) (r : Runner) (types : List String) (p : Plugin)
    (s : Outputs table files)
    → All HasTarget (table.rows s.rows)
    → can_plugin_run table files r types p s ≡ chosen_plugin r types p
unfolding can_plugin_run plugin_already_run
can_plugin_run-eq-chosen_plugin table files r types p s h =
    rw (not_run table files p (table.rows s.rows) h) (ground arith)
