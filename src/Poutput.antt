-- ===== src/Poutput.antt =====
-- owtf/managers/poutput.py: what plugins produced, and whether a plugin has already run.
-- The table of outputs and the file system are parameters.
pub mod Criteria
pub mod Removal
pub mod Severity
use owtf.Base.{
  ℕ, String, Bool, true, ◌&&◌, ◌||◌, Option, none, some, List, [], ◌∷◌, str_eq, if◌then◌else◌,
  is_some, keep, any, take, drop,
}
use owtf.Base.Int.{ℤ, pos, negsuc, eqb_ℤ}
use owtf.Db.Table.{Table}
use owtf.Db.Files.{Files}
use owtf.Db.Models.{Plugin, PluginOutput}
use owtf.Exceptions.{Error, Result, ok, err, database_error}
use owtf.Poutput.Criteria.{FilterData, Query, poutput_gen_query, same_target}

pub record Outputs (table : Table PluginOutput) (files : Files) : Type 0 where
  pub rows : table.State
  pub folders : files.State

-- `if plugin.output_path:` of a row
abbrev pub folder : PluginOutput → Option String
folder r = elim r.output_path [ none ↦ none | some p ↦ if str_eq p "" then none else some p ]

-- A slice of the matching rows; PostgreSQL refuses a negative offset or limit.
abbrev pub skip : Option ℤ → List PluginOutput → Option (List PluginOutput)
skip none rs = some rs
skip (some (pos n)) rs = some (drop n rs)
skip (some (negsuc _)) rs = none

abbrev pub limit_to : Option ℤ → List PluginOutput → Option (List PluginOutput)
limit_to none rs = some rs
limit_to (some (pos n)) rs = some (take n rs)
limit_to (some (negsuc _)) rs = none

-- query.all()
abbrev pub page : Query → List PluginOutput → Option (List PluginOutput)
page q rs = elim (skip q.offset (keep q.selects rs)) [ none ↦ none | some l ↦ limit_to q.limit l ]

-- The dictionary of a plugin that was run: the fields that `process_plugin` adds.
pub record Run : Type 0 where
  pub start : ℕ
  pub end : ℕ
  pub status : String
  pub output_path : String
  pub owtf_rank : ℤ

module _ (table : Table PluginOutput) (files : Files) where
  abbrev S : Type 0
  S = Outputs table files

  unfoldable pub plugin_output_exists : String → ℕ → S → Bool
  plugin_output_exists plugin_key target_id s =
      any (λ r. same_target (some target_id) r.target_id && str_eq r.plugin_key plugin_key)
        (table.rows s.rows)

  -- `plugin_already_run`; its `target_id` is None by default.
  abbrev pub is_run_of : Plugin → Option ℕ → PluginOutput → Bool
  is_run_of p target_id r =
      same_target target_id r.target_id
      && str_eq r.plugin_code p.code
      && str_eq r.plugin_type p.type
      && str_eq r.plugin_group p.group

  unfoldable pub plugin_already_run : Plugin → Option ℕ → S → Bool
  plugin_already_run p target_id s = any (is_run_of p target_id) (table.rows s.rows)

  -- `path_of p` is `os.path.join(get_output_dir_target(), p)`.
  module _ (path_of : String → String) where
    unfoldable pub rm_folder : Option String → files.State → files.State
    rm_folder none fs = fs
    rm_folder (some p) fs = if files.exists (path_of p) fs then files.rm_tree (path_of p) fs else fs

    unfoldable pub rm_folders : List PluginOutput → files.State → files.State
    unfolding rm_folder
    rm_folders [] fs = fs
    rm_folders (r ∷ rs) fs = rm_folders rs (rm_folder (folder r) fs)

    -- The mapper refuses `delete()` on a query with an offset or a limit; by then the folders
    -- are gone.
    unfoldable pub delete_query : Query → Option (List PluginOutput) → S → Result (Unit {0}) × S
    delete_query q none s = (err database_error, s)
    delete_query q (some rs) s =
        let s1 = record s { folders = rm_folders rs s.folders } in
        if is_some q.offset || is_some q.limit
        then (err database_error, s1)
        else (ok tt, record s1 { rows = table.delete q.selects s.rows })

    unfoldable pub delete_all_poutput :
        (String → Option ℤ) → FilterData → Option ℕ → S → Result (Unit {0}) × S
    unfolding delete_query
    delete_all_poutput int filter_data target_id s =
        elim (poutput_gen_query int filter_data target_id true) [
          | err e ↦ (err e, s)
          | ok q ↦ delete_query q (page q (table.rows s.rows)) s
        ]

  -- The row of `save_plugin_output` and of `save_partial_output`. `session.merge` of an object
  -- with no primary key inserts it, and (plugin_key, target_id) is unique.
  module _ (dir_exists : Bool) where
    abbrev pub saved_row : Plugin → Run → String → Option String → ℕ → ℕ → PluginOutput
    saved_row p run output error target_id id = record {
      id = id;
      target_id = some target_id;
      plugin_key = p.key;
      plugin_code = p.code;
      plugin_group = p.group;
      plugin_type = p.type;
      output = output;
      error = error;
      start_time = run.start;
      end_time = run.end;
      status = run.status;
      user_rank = negsuc 0;
      owtf_rank = run.owtf_rank;
      output_path = if dir_exists then some run.output_path else none;
    }

    unfoldable pub save : Plugin → Run → String → Option String → ℕ → S → Result (Unit {0}) × S
    unfolding plugin_output_exists
    save p run output error target_id s =
        if plugin_output_exists p.key target_id s
        then (err database_error, s)
        else (ok tt, record s { rows = table.add (saved_row p run output error target_id) s.rows })

    unfoldable pub save_plugin_output : Plugin → Run → String → ℕ → S → Result (Unit {0}) × S
    unfolding save
    save_plugin_output p run output = save p run output none

    unfoldable pub save_partial_output :
        Plugin → Run → String → String → ℕ → S → Result (Unit {0}) × S
    unfolding save
    save_partial_output p run output message = save p run output (some message)
