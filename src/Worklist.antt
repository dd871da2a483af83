-- ===== src/Worklist.antt =====
-- owtf/managers/worklist.py: the queue of (target, plugin) jobs, over the table of `Work` rows.
-- `target_of` and `plugin_of` are the relationships `work_model.target` and `work_model.plugin`.
pub mod Listing
pub mod Priority
pub mod Take
pub mod Switches
pub mod Add
pub mod Load
use owtf.Base.{
  ℕ, String, Bool, true, false, not, beq, ◌&&◌, Option, none, some, List, [], ◌∷◌, str_eq, ◌==◌,
  if◌then◌else◌, find_first, any, mem_nat,
}
use owtf.Db.Table.{Table}
use owtf.Db.Files.{Files}
use owtf.Db.Models.{Work, Plugin, PluginOutput, Target}
use owtf.Base.Int.{ℤ}
use owtf.Exceptions.{Result, ok, err, invalid_work_reference, db_integrity, ◌>>=◌}
use owtf.Poutput.{Outputs, plugin_already_run, delete_all_poutput}
use owtf.Poutput.Criteria.{FilterData, no_filter, one}
use Priority.{group_sort_order}

-- The dictionary of `_derive_work_dict`.
pub record WorkDict : Type 0 where
  pub target : Target
  pub plugin : Plugin
  pub id : ℕ
  pub active : Bool

-- `query.get(work_id)`
abbrev pub has_id : ℕ → Work → Bool
has_id work_id w = w.id == work_id

-- The rows of `get_work_for_target`; `not in` an empty list is no condition.
abbrev pub is_eligible : List ℕ → Work → Bool
is_eligible in_use w = w.active && not (mem_nat w.target_id in_use)

module _ (works : Table Work) (target_of : Work → Target) (plugin_of : Work → Plugin) where
  unfoldable pub derive_work_dict : Work → WorkDict
  derive_work_dict w = record {
    target = target_of w;
    plugin = plugin_of w;
    id = w.id;
    active = w.active;
  }

  -- The job is removed from the table as it is handed out.
  unfoldable pub get_work_for_target : List ℕ → works.State → Option (Target × Plugin) × works.State
  unfolding derive_work_dict
  get_work_for_target in_use s = elim (find_first (is_eligible in_use) (works.rows s)) [
    | none ↦ (none, s)
    | some w ↦
        let work_dict = derive_work_dict w in
        (some (work_dict.target, work_dict.plugin), works.delete (has_id w.id) s)
  ]

  unfoldable pub get_work : ℕ → works.State → Result WorkDict
  get_work work_id s = elim (find_first (has_id work_id) (works.rows s)) [
    | none ↦ err invalid_work_reference
    | some w ↦ ok (derive_work_dict w)
  ]

abbrev pub set_active : Bool → Work → Work
set_active active w = record w { active = active }

module _ (works : Table Work) where
  unfoldable pub remove_work : ℕ → works.State → Result works.State
  remove_work work_id s = elim (find_first (has_id work_id) (works.rows s)) [
    | none ↦ err invalid_work_reference
    | some w ↦ ok (works.delete (has_id w.id) s)
  ]

  unfoldable pub delete_all_work : works.State → works.State
  delete_all_work s = works.delete (λ _. true) s

  -- `if active != work_obj.active`
  unfoldable pub patch_work : ℕ → Bool → works.State → Result works.State
  patch_work work_id active s = elim (find_first (has_id work_id) (works.rows s)) [
    | none ↦ err invalid_work_reference
    | some w ↦
        if beq active w.active then ok s else ok (works.update (has_id w.id) (set_active active) s)
  ]

  unfoldable pub pause_all_work : works.State → works.State
  pause_all_work = works.update (λ _. true) (set_active false)

  unfoldable pub resume_all_work : works.State → works.State
  resume_all_work = works.update (λ _. true) (set_active true)

  unfoldable pub stop_plugins : List Plugin → works.State → works.State
  stop_plugins [] s = s
  stop_plugins (p ∷ ps) s =
      stop_plugins ps (works.update (λ w. str_eq w.plugin_key p.key) (set_active false) s)

  unfoldable pub stop_targets : List Target → works.State → works.State
  stop_targets [] s = s
  stop_targets (t ∷ ts) s =
      stop_targets ts (works.update (λ w. w.target_id == t.id) (set_active false) s)

-- What `add_work` reads and writes.
pub record Jobs (works : Table Work) (outputs : Table PluginOutput) (files : Files) : Type 0 where
  pub queue : works.State
  pub produced : Outputs outputs files

abbrev pub is_job : ℕ → String → Work → Bool
is_job target_id plugin_key w = w.target_id == target_id && str_eq w.plugin_key plugin_key

-- `Work(target_id=..., plugin_key=...)`: active by default
abbrev pub new_work : ℕ → String → ℕ → Work
new_work target_id plugin_key id = record {
  id = id;
  target_id = target_id;
  plugin_key = plugin_key;
  active = true;
}

module _ (works : Table Work) (outputs : Table PluginOutput) (files : Files)
    (path_of : String → String) (int : String → Option ℤ) where
  abbrev J : Type 0
  J = Jobs works outputs files

  -- `get_count(...) != 0`: the statement goes to the database past the session, so that a row that was
  -- added and is not yet flushed does not count.
  unfoldable pub in_worklist : ℕ → String → J → Bool
  in_worklist target_id plugin_key s = any (is_job target_id plugin_key) (works.rows s.queue)

  abbrev pub key_filter : String → FilterData
  key_filter key = record no_filter { plugin_key = one key }

  -- What the loops of `add_work` work on: `pending` is the row that was added last, by target and plugin,
  -- while the session has not flushed it.
  pub record Adding : Type 0 where
    pub jobs : J
    pub pending : Option (ℕ × String)

  -- A query of the session, and the commit, insert the pending row, against the unique constraint.
  unfoldable pub flush : Adding → Result J
  unfolding in_worklist
  flush a = elim a.pending [
    | none ↦ ok a.jobs
    | some (target_id, plugin_key) ↦
        if in_worklist target_id plugin_key a.jobs
        then err db_integrity
        else ok (record (a.jobs) { queue = works.add (new_work target_id plugin_key) a.jobs.queue })
  ]

  -- The body of the two loops after its first queries.
  unfoldable pub add_flushed : Bool → Target → Plugin → J → Result Adding
  add_flushed force_overwrite target plugin s =
      if force_overwrite
      then (let (r, produced) =
            delete_all_poutput outputs files path_of int (key_filter plugin.key) (some target.id)
              s.produced in
          do
            _ ← r
            ok (record {
              jobs = record s { produced = produced };
              pending = some (target.id, plugin.key);
            }))
      else if plugin_already_run outputs files plugin (some target.id) s.produced
      then ok (record { jobs = s; pending = none })
      else ok (record { jobs = s; pending = some (target.id, plugin.key) })

  -- The body of the two loops, for one target and one plugin. The query of `plugin_already_run`, which
  -- always runs, flushes.
  unfoldable pub add_one : Bool → Target → Plugin → Adding → Result Adding
  unfolding flush add_flushed
  add_one force_overwrite target plugin a =
      if in_worklist target.id plugin.key a.jobs
      then ok a
      else (do s ← flush a; add_flushed force_overwrite target plugin s)

  unfoldable pub add_plugins : Bool → Target → List Plugin → Adding → Result Adding
  add_plugins force_overwrite target [] a = ok a
  add_plugins force_overwrite target (p ∷ ps) a = do
    next ← add_one force_overwrite target p a
    add_plugins force_overwrite target ps next

  unfoldable pub add_targets : Bool → List Target → List Plugin → Adding → Result Adding
  add_targets force_overwrite [] plugins a = ok a
  add_targets force_overwrite (t ∷ ts) plugins a = do
    next ← add_plugins force_overwrite t plugins a
    add_targets force_overwrite ts plugins next

  -- No sorting if there is an auxiliary plugin. At the end the session commits.
  unfoldable pub add_work : List Target → List Plugin → Bool → J → Result J
  unfolding flush
  add_work target_list plugin_list force_overwrite s = do
    sorted ←
        if any (λ p. str_eq p.group "auxiliary") plugin_list
        then ok plugin_list
        else group_sort_order plugin_list
    added ← add_targets force_overwrite target_list sorted (record { jobs = s; pending = none })
    flush added
