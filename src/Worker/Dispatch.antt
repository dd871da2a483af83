-- ===== src/Worker/Dispatch.antt =====
-- `get_task` and `manage_workers` of owtf/managers/worker.py: poll the workers, hand out work.

use owtf.Base.{
  ℕ, zero, suc, ◌/◌, String, Bool, true, false, not, ◌||◌, Option, none, some, [], ◌∷◌, ◌++◌, ltb,
  if◌then◌else◌, length, get_elem?, set,
}
use owtf.Db.Table.{Table}
use owtf.Db.Models.{Work, Plugin, Target}
use owtf.Worklist.{get_work_for_target}
use owtf.Worker.Pool.{
  Process, Job, Slot, put_input, took_output, finished, Manager, targets_in_use, is_any_worker_busy,
  spawn_worker,
}

abbrev pub min_ram_needed : ℕ
min_ram_needed = 20

-- What the polling of one worker sees: its output queue, the two calls of `check_pid`, the free
-- memory in bytes, the process that a respawn starts, and the time.
pub record Observation : Type 0 where
  pub has_output : Bool
  pub alive_at_test : Bool
  pub alive_at_branch : Bool
  pub available : ℕ
  pub spawned : Process
  pub now : String

module _ (works : Table Work) (target_of : Work → Target) (plugin_of : Work → Plugin) where
  abbrev M : Type 0
  M = Manager works

  -- `int(avail / 1024 / 1024) > MIN_RAM_NEEDED`
  unfoldable pub get_task : ℕ → M → Option Job × M
  get_task available m =
      if ltb min_ram_needed (available / 1048576)
      then (let (job, queue) =
            get_work_for_target works target_of plugin_of (targets_in_use m.workers) m.queue in
          (job, record m { queue = queue }))
      else (none, m)

  -- The worker at `k` has ended its work, or has died and is replaced.
  unfoldable pub retire : ℕ → Slot → Observation → M → M
  retire k slot obs m =
      if obs.alive_at_branch
      then record m {
        workers =
            set m.workers k (record slot { work = none; busy = false; start_time = some "NA" });
      }
      else spawn_worker (some k) obs.spawned m

  unfoldable pub assign_to : ℕ → Slot → Option Job → Observation → M → M
  assign_to k slot none obs m = m
  assign_to k slot (some job) obs m = record m {
    workers =
        set m.workers k (record slot { work = some job; busy = true; start_time = some obs.now });
    log = m.log ++ took_output slot.worker.pid ∷ put_input slot.worker.pid job ∷ [];
  }

  -- `self.workers[k]` after `retire`.
  unfoldable pub assign : ℕ → Option Job → Observation → M → M
  unfolding assign_to
  assign k job obs m = elim (get_elem? m.workers k) [
    | none ↦ m
    | some slot ↦ assign_to k slot job obs m
  ]

  unfoldable pub announce : M → M
  announce m =
      if m.keep_working || is_any_worker_busy m.workers
      then m
      else record m { log = m.log ++ finished ∷ [] }

  unfoldable pub serve : ℕ → Slot → Observation → M → M
  serve k slot obs m =
      let (job, m') = get_task obs.available (retire k slot obs m) in announce (assign k job obs m')

  -- The body of the loop for the worker at `k`.
  unfoldable pub manage_one : ℕ → Observation → M → M
  manage_one k obs m = elim (get_elem? m.workers k) [
    | none ↦ m
    | some slot ↦ if obs.has_output || not obs.alive_at_test then serve k slot obs m else m
  ]

  -- `for k in range(0, len(self.workers))`, from `k` on for `count` workers.
  unfoldable pub manage_from : (k count : ℕ) → (ℕ → Observation) → M → M
  manage_from k zero obs m = m
  manage_from k (suc count) obs m = manage_from (suc k) count obs (manage_one k (obs k) m)

  unfoldable pub manage_workers : (ℕ → Observation) → M → M
  manage_workers obs m = manage_from 0 (length m.workers) obs m
