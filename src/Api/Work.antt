-- ===== src/Api/Work.antt =====
-- owtf/api/handlers/work.py: the requests for workers and for the worklist, over the operations of
-- Worker and Worklist. The routes (owtf/api/routes.py) let only digits through as an id.

pub mod Requests
use owtf.Base.{
  ℕ, String, Bool, true, false, ◌||◌, Option, none, some, List, leb, ◌==◌, if◌then◌else◌, length,
}
use owtf.Base.Int.{ℤ}
use owtf.Api.{
  Handler, ◌>>◌, done, raise, success, change, attempt, perform, query, refuse_if, ◌>>=◌,
}
use owtf.Db.Table.{Table}
use owtf.Db.Files.{Files}
use owtf.Db.Models.{Work, Plugin, PluginOutput, Target}
use owtf.Db.Query.{Found, str2bool}
use owtf.Exceptions.{
  Error, Result, ok, err, invalid_work_reference, invalid_worker_reference,
  invalid_target_reference, invalid_parameter_type, api_error, attribute_error, type_error,
  key_error,
}
use owtf.Process.{Host}
use owtf.Worker.Pool.{Process, Manager}
use owtf.Worker.Control.{
  Details, get_worker_details, create_worker, delete_worker, pause_worker, resume_worker,
  pause_all_workers, resume_all_workers, abort_worker,
}
use owtf.Worklist.{
  WorkDict, Jobs, get_work, remove_work, delete_all_work, patch_work, pause_all_work,
  resume_all_work, add_work,
}
use owtf.Worklist.Listing.{WorkCriteria, get_all_work, search_all_work}

-- What stands at the end of an address.
pub data Action : Type 0 where
  pause : Action
  resume : Action
  abort : Action
  delete : Action

pub data Reply : Type 0 where
  nothing : Reply
  workers : List Details → Reply
  work : WorkDict → Reply
  works : List WorkDict → Reply
  found : Found Work → Reply

abbrev pub is_worker_error : Error → Bool
is_worker_error invalid_worker_reference = true
is_worker_error _ = false

abbrev pub is_work_error : Error → Bool
is_work_error invalid_work_reference = true
is_work_error _ = false

abbrev pub is_parameter_error : Error → Bool
is_parameter_error invalid_target_reference = true
is_parameter_error invalid_parameter_type = true
is_parameter_error _ = false

abbrev pub is_listing_error : Error → Bool
is_listing_error invalid_parameter_type = true
is_listing_error invalid_work_reference = true
is_listing_error _ = false

abbrev pub is_search_error : Error → Bool
is_search_error invalid_parameter_type = true
is_search_error _ = false

abbrev pub is_any_error : Error → Bool
is_any_error e = is_parameter_error e || is_work_error e

module _ (table : Table Work) (host : Host) where
  abbrev Pool : Type 0 → Type 0
  Pool = Handler (Manager table) Reply

  -- getattr(worker_manager, "{}_all_workers".format(action))(), which abort has not
  unfoldable pub act_on_all : Action → Pool (Unit {0})
  act_on_all pause = perform (pause_all_workers host)
  act_on_all resume = perform (resume_all_workers host)
  act_on_all _ = raise attribute_error

  -- getattr(worker_manager, "{}_worker".format(action))(id)
  unfoldable pub act_on : Action → ℕ → Pool (Unit {0})
  act_on pause id = perform (pause_worker host id)
  act_on resume id = perform (resume_worker host id)
  act_on abort id = perform (abort_worker host id)
  act_on delete id = perform (delete_worker host id)

  -- WorkerHandler.get. With an action there is no answer but the status; id 0 stands for all workers,
  -- and then for the last one.
  unfoldable pub get_worker : (worker_id : Option ℕ) → Option Action → Pool (Unit {0})
  unfolding act_on act_on_all
  get_worker none action = do details ← query (get_worker_details 0); success (workers details)
  get_worker (some id) none =
      refuse_if is_worker_error
        (do details ← query (get_worker_details id); success (workers details))
  get_worker (some id) (some action) =
      refuse_if is_worker_error ((if id == 0 then act_on_all action else done) >> act_on action id)

  -- WorkerHandler.post
  unfoldable pub post_worker : Process → (worker_id : Option ℕ) → Option Action → Pool (Unit {0})
  post_worker w none none = do change (create_worker w); success nothing
  post_worker w _ _ = raise api_error

  -- WorkerHandler.delete; int(None) is a TypeError.
  unfoldable pub delete_worker_request : (worker_id : Option ℕ) → Option Action → Pool (Unit {0})
  delete_worker_request none (some action) = raise api_error
  delete_worker_request none none = raise type_error
  delete_worker_request (some id) action =
      refuse_if is_worker_error (do perform (delete_worker host id); success nothing)

module _ (table : Table Work) (outputs : Table PluginOutput) (files : Files)
    (path_of : String → String) (int : String → Option ℤ) (target_of : Work → Target)
    (plugin_of : Work → Plugin) (like ilike : String → String → Bool) where
  abbrev Lists : Type 0 → Type 0
  Lists = Handler (Jobs table outputs files) Reply

  -- An operation of the queue alone.
  abbrev pub on_queue :
      (table.State → Result table.State)
      → Jobs table outputs files
      → Result (Jobs table outputs files)
  on_queue f s = elim (f s.queue) [ err e ↦ err e | ok q ↦ ok (record s { queue = q }) ]

  -- WorklistHandler.get
  unfoldable pub get_worklist : (work_id : Option ℕ) → WorkCriteria → Lists (Unit {0})
  get_worklist none c = refuse_if is_listing_error (do
    ws ← query (λ s. get_all_work int like ilike target_of plugin_of table c s.queue)
    success (works ws))
  get_worklist (some id) c =
      refuse_if is_listing_error
        (do w ← query (λ s. get_work table target_of plugin_of id s.queue); success (work w))

  -- WorklistHandler.post, with the plugins and targets that the data select, or the exception of
  -- selecting them, and the value of "force_overwrite"
  unfoldable pub post_worklist :
      (work_id : Option ℕ)
      → Option Action
      → (plugin_list : Result (List Plugin)) → (target_list : Result (List Target))
      → (force_overwrite : Option String) → Lists (Unit {0})
  post_worklist none none plugin_list target_list force_overwrite = refuse_if is_parameter_error (do
    ps ← query (λ _. plugin_list)
    ts ← query (λ _. target_list)
    if leb (length ps) 0
        then raise api_error
        else if leb (length ts) 0
        then raise api_error
        else elim force_overwrite [
          | none ↦ raise key_error
          | some text ↦ (do
            attempt (add_work table outputs files path_of int ts ps (str2bool text))
            success nothing)
        ])
  post_worklist _ _ plugin_list target_list force_overwrite = raise api_error

  -- WorklistHandler.delete
  unfoldable pub delete_worklist : (work_id : Option ℕ) → Option Action → Lists (Unit {0})
  delete_worklist none action = raise api_error
  delete_worklist (some id) (some action) = raise api_error
  delete_worklist (some id) none = refuse_if is_any_error (do
    if id == 0
        then change (λ s. record s { queue = delete_all_work table s.queue })
        else attempt (on_queue (remove_work table id))
    success nothing)

  -- What a patch does: 0 is like a broadcast address, and another action does nothing.
  unfoldable pub patched : ℕ → Action → Lists (Unit {0})
  patched id resume =
      if id == 0
      then change (λ s. record s { queue = resume_all_work table s.queue })
      else attempt (on_queue (patch_work table id true))
  patched id pause =
      if id == 0
      then change (λ s. record s { queue = pause_all_work table s.queue })
      else attempt (on_queue (patch_work table id false))
  patched id _ = done

  -- WorklistHandler.patch
  unfoldable pub patch_worklist : (work_id : Option ℕ) → Option Action → Lists (Unit {0})
  unfolding patched
  patch_worklist none action = raise api_error
  patch_worklist (some id) none = raise api_error
  patch_worklist (some id) (some action) =
      refuse_if is_work_error (do patched id action; success nothing)

  -- WorklistSearchHandler.get
  unfoldable pub get_worklist_search : WorkCriteria → Lists (Unit {0})
  get_worklist_search c = refuse_if is_search_error (do
    f ← query (λ s.
        search_all_work int like ilike target_of plugin_of table (record c { search = true })
          s.queue)
    success (found f))
