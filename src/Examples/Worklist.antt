-- ===== src/Examples/Worklist.antt =====
-- Examples of owtf.Worklist.
use mathlib.Core.List.{mem-cons_self}
use owtf.Base.{◌≡◌, ◌⊎◌, refl, true, false, none, some, List, [], ◌∷◌, arith}
use owtf.Db.Memory.{Stored, memory, memory_files}
use owtf.Db.Models.{Work, Plugin}
use owtf.Exceptions.{ok, err, key_error, db_integrity}
use owtf.Worklist.{
  Jobs, get_work_for_target, remove_work, patch_work, add_work, add_one, add_plugins, add_targets,
  add_flushed, flush, in_worklist,
}
use owtf.Worklist.Priority.{IsSortedGroup, group_sort_order, group_sort_order-IsSortedGroup}
use owtf.Base.Sorting.{sorted_reverse}
use owtf.Worklist.Take.{IsTaken, get_work_for_target-IsTaken}
use owtf.Worklist.Add.{IsUnique}
use owtf.Worklist.Add.Unique.{add_work-IsUnique}
use owtf.Worklist.Add.Complete.{served, add_work-served}
use owtf.Poutput.{plugin_already_run}
use owtf.Base.Int.{pos}
use owtf.Poutput.Criteria.{absent}
use owtf.Plugins.{get_all_plugin_dicts, plugin_gen_query}
use owtf.Worklist.Load.{LoadOptions, load_one, load_works}
use owtf.Examples.Data.{
  target_at, plugin_of_type, work_of, target_of_work, plugin_of_work, three_jobs, two_outputs,
  no_int, same_path,
}

abbrev given : List Plugin
given = plugin_of_type "active" ∷ plugin_of_type "external" ∷ plugin_of_type "grep" ∷ []

abbrev by_priority : List Plugin
by_priority = plugin_of_type "external" ∷ plugin_of_type "active" ∷ plugin_of_type "grep" ∷ []

sorts : group_sort_order given ≡ ok by_priority
unfolding group_sort_order sorted_reverse
sorts = refl

group_sort_order_example : IsSortedGroup given by_priority
group_sort_order_example = group_sort_order-IsSortedGroup given by_priority sorts

abbrev after_fetch : Stored Work
after_fetch = record three_jobs {
  contents = work_of 1 7 "active" false ∷ work_of 2 7 "passive" true ∷ [];
}

-- Target 7 is in use, so the third job is handed out.
fetch :
    get_work_for_target memory target_of_work plugin_of_work (7 ∷ []) three_jobs
    ≡ (some (target_at 8, plugin_of_type "active"), after_fetch)
unfolding get_work_for_target
fetch = refl

get_work_for_target_example :
    IsTaken memory target_of_work plugin_of_work
      (7 ∷ [])
      three_jobs
      (target_at 8, plugin_of_type "active")
      after_fetch
get_work_for_target_example =
    get_work_for_target-IsTaken memory target_of_work plugin_of_work (7 ∷ []) three_jobs after_fetch
      (target_at 8, plugin_of_type "active") (omega arith) fetch

abbrev without_third : Stored Work
without_third = after_fetch

removes : remove_work memory 3 three_jobs ≡ ok without_third
unfolding remove_work
removes = refl

abbrev patched : Stored Work
patched = record three_jobs {
  contents =
      work_of 1 7 "active" true ∷ work_of 2 7 "passive" true ∷ work_of 3 8 "active" true ∷ [];
}

patches : patch_work memory 1 true three_jobs ≡ ok patched
unfolding patch_work
patches = refl

abbrev jobs : Jobs memory memory memory_files
jobs = record { queue = three_jobs; produced = record { rows = two_outputs; folders = [] } }

abbrev more_jobs : Jobs memory memory memory_files
more_jobs = record jobs {
  queue = record {
    contents =
        work_of 1 7 "active" false
        ∷ work_of 2 7 "passive" true
        ∷ work_of 3 8 "active" true
        ∷ work_of 4 7 "external" true
        ∷ work_of 5 7 "grep" true
        ∷ [];
    counter = 6;
  };
}

-- "active" is queued for target 7 already.
adds :
    add_work memory memory memory_files same_path no_int (target_at 7 ∷ []) given false jobs
    ≡ ok more_jobs
unfolding add_work add_targets add_plugins add_one add_flushed flush in_worklist plugin_already_run
    group_sort_order sorted_reverse
adds = refl

add_work-IsUnique_example :
    (add_work memory memory memory_files same_path no_int (target_at 7 ∷ []) given false jobs
      ≡ err key_error)
    ⊎ ((s' : Jobs memory memory memory_files) × (add_work memory memory memory_files same_path
            no_int
            (target_at 7 ∷ [])
            given
            false
            jobs
          ≡ ok s')
        × IsUnique (memory.rows s'.queue))
add_work-IsUnique_example =
    add_work-IsUnique memory memory memory_files same_path no_int (target_at 7 ∷ []) given false
      jobs (tt, tt) ((refl, (refl, tt)), ((refl, tt), (tt, tt)))
      ((refl, (refl, tt)), ((refl, tt), (tt, tt)))

-- A plugin that is given twice is added twice, and the commit fails.
twice :
    add_work memory memory memory_files same_path no_int
      (target_at 7 ∷ [])
      (plugin_of_type "external" ∷ plugin_of_type "external" ∷ [])
      false
      jobs
    ≡ err db_integrity
unfolding add_work add_targets add_plugins add_one add_flushed flush in_worklist plugin_already_run
    group_sort_order sorted_reverse
twice = refl

add_work_served_example :
    served memory memory memory_files same_path no_int false jobs more_jobs
      (target_at 7)
      (plugin_of_type "active")
    ≡ true
add_work_served_example =
    add_work-served memory memory memory_files same_path no_int false (target_at 7 ∷ []) given jobs
      more_jobs (target_at 7) (plugin_of_type "active") adds mem-cons_self mem-cons_self

abbrev web_options : LoadOptions
web_options = record {
  plugin_group = none;
  plugin_type = absent;
  only_plugins = none;
  force_overwrite = false;
}

-- An empty URL is passed over.
loads :
    load_works memory memory memory_files same_path no_int given
      (λ p. pos 0)
      (target_at 7 ∷ [])
      (λ t. true)
      ("" ∷ "http://a" ∷ [])
      web_options
      jobs
    ≡ ok more_jobs
unfolding load_works load_one get_all_plugin_dicts plugin_gen_query add_work add_targets add_plugins
    add_one add_flushed flush in_worklist plugin_already_run group_sort_order sorted_reverse
loads = refl
