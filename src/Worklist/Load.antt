-- ===== src/Worklist/Load.antt =====
-- `load_works` of owtf/managers/worklist.py: the command line's targets and options become jobs.
-- `targets` are the rows of the targets, of which some are in the active session.

use owtf.Base.{
  String, Bool, true, false, ◌&&◌, ◌||◌, Option, none, some, List, [], ◌∷◌, reverse, str_eq,
  if◌then◌else◌, keep,
}
use text.Mathlib.Text.{starts_with}
use owtf.Base.Int.{ℤ}
use owtf.Db.Table.{Table}
use owtf.Db.Files.{Files}
use owtf.Db.Models.{Work, Plugin, PluginOutput, Target}
use owtf.Exceptions.{Result, ok, err, ◌>>=◌, index_error}
use owtf.Plugins.{Criteria, get_all_plugin_dicts}
use owtf.Poutput.Criteria.{Criterion, absent, one}
use owtf.Worklist.{Jobs, add_work}

pub record LoadOptions : Type 0 where
  pub plugin_group : Option String
  pub plugin_type : Criterion
  pub only_plugins : Option (List String)
  pub force_overwrite : Bool

-- Network plugins for what is not a web address, unless the user chose a group.
abbrev pub group_of : Option String → String → String
group_of (some group) target_url = group
group_of none target_url =
    if starts_with target_url "http://" || starts_with target_url "https://"
    then "web"
    else "network"

abbrev pub criteria_of : LoadOptions → String → Criteria
criteria_of o target_url = record {
  type = o.plugin_type;
  group = elim o.only_plugins [ none ↦ one (group_of o.plugin_group target_url) | some _ ↦ absent ];
  code = absent;
  name = absent;
}

abbrev is_nil {ℓ} : {A : Type ℓ} → List A → Bool
is_nil [] = true
is_nil (x ∷ xs) = false

module _ (works : Table Work) (outputs : Table PluginOutput) (files : Files)
    (path_of : String → String) (int : String → Option ℤ) (plugins : List Plugin)
    (priority : Plugin → ℤ) (targets : List Target) (in_session : Target → Bool) where
  abbrev J : Type 0
  J = Jobs works outputs files

  -- `target_gen_query` of owtf/managers/target.py for one URL, the newest target first.
  abbrev pub targets_at : String → List Target
  targets_at target_url =
      reverse (keep (λ t. in_session t && str_eq t.target_url target_url) targets)

  -- The body of the loop. The message that no plugin was found names the first target.
  unfoldable pub load_one : LoadOptions → String → J → Result J
  load_one o target_url s = if str_eq target_url "" then ok s else (do
    found ← get_all_plugin_dicts plugins priority (criteria_of o target_url) o.only_plugins
    if is_nil found && is_nil (targets_at target_url)
        then err index_error
        else add_work works outputs files path_of int (targets_at target_url) found
            o.force_overwrite s)

  unfoldable pub load_works : List String → LoadOptions → J → Result J
  load_works [] o s = ok s
  load_works (u ∷ us) o s = do next ← load_one o u s; load_works us o next
